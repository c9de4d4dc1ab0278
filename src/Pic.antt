-- ===== src/Pic.antt =====
-- student-distrib/i8259.c, the interrupt controllers, and student-distrib/pit.c. What `inb` gives
-- is the hardware's: it is the parameter `read`, a function of what has been written to the ports.
pub mod Masks
use fuzzy_os.Base.{Ports, bit_and, bit_or, if◌then◌else◌, leb, out_byte, ℕ, ◌%◌, ◌-◌, ◌/◌, ◌^◌}

abbrev pub master_port : ℕ
master_port = 0x20

abbrev pub master_port_data : ℕ
master_port_data = 0x21

abbrev pub slave_port : ℕ
slave_port = 0xA0

abbrev pub slave_port_data : ℕ
slave_port_data = 0xA1

abbrev pub eoi : ℕ
eoi = 0x60

abbrev pub num_pic_ports : ℕ
num_pic_ports = 8

-- i8259_init: the four control words of each controller, then both masked
unfoldable pub i8259_init : Ports → Ports
i8259_init ports = out_byte 0xff slave_port_data (
    out_byte 0xff master_port_data (
      out_byte 0x01 slave_port_data (
        out_byte 0x02 slave_port_data (
          out_byte 0x28 slave_port_data (
            out_byte 0x11 slave_port (
              out_byte 0x01 master_port_data (
                out_byte 0x04 master_port_data
                  (out_byte 0x20 master_port_data (out_byte 0x11 master_port ports)))))))))

-- `port & ~(1 << n)` and `port | (1 << n)`
unfoldable pub clear_bit : ℕ → ℕ → ℕ
clear_bit port n = bit_and port (2 ^ 32 - 1 - 2 ^ n)

unfoldable pub set_bit : ℕ → ℕ → ℕ
set_bit port n = bit_or port (2 ^ n)

module _ (read : Ports → ℕ → ℕ) where
  -- enable_irq; `port` is a `uint16_t`.
  unfoldable pub enable_irq : ℕ → Ports → Ports
  enable_irq irq_num ports =
      if leb num_pic_ports irq_num
      then out_byte (clear_bit (read ports slave_port_data % 2 ^ 16) (irq_num - num_pic_ports))
          slave_port_data ports
      else out_byte (clear_bit (read ports master_port_data % 2 ^ 16) irq_num) master_port_data
          ports

  -- disable_irq
  unfoldable pub disable_irq : ℕ → Ports → Ports
  disable_irq irq_num ports =
      if leb num_pic_ports irq_num
      then out_byte (set_bit (read ports slave_port_data % 2 ^ 16) (irq_num - num_pic_ports))
          slave_port_data ports
      else out_byte (set_bit (read ports master_port_data % 2 ^ 16) irq_num) master_port_data ports

  -- init_pit: square wave, and the divisor 1193180 in two bytes
  unfoldable pub init_pit : Ports → Ports
  unfolding enable_irq
  init_pit ports = enable_irq 0 (
      out_byte (1193180 / 2 ^ 8) 0x40
        (out_byte (bit_and 1193180 0xFF) 0x40 (out_byte 0x36 0x43 ports)))

-- send_eoi
unfoldable pub send_eoi : ℕ → Ports → Ports
send_eoi irq_num ports =
    if leb num_pic_ports irq_num
    then out_byte (bit_or eoi 2) master_port
        (out_byte (bit_or eoi (irq_num - num_pic_ports)) slave_port ports)
    else out_byte (bit_or eoi irq_num) master_port ports
