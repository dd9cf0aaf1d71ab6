-- ===== src/Drivers/Network/Ring.antt =====
-- drivers/network.c: where the next packet is looked for.
use ephemeral_os.Base.{
  ◌-◌, ◌%◌, ◌/◌, min, leb, ltb, ◌==◌, ◌||◌, false, refl, arith, ℕ, ◌+◌, ◌*◌, ◌≤◌, ◌≡◌, true, take,
  drop,
}
use ephemeral_os.Net.Order.{load16}
use ephemeral_os.Drivers.Network.{Card, packet, network_receive_packet}

-- A good packet of `size` bytes with its CRC, at an aligned offset, far from the end of the ring and
-- not longer than the caller's buffer: all its bytes but the CRC are copied, and `rx_offset` then is 4
-- bytes before the place where the card puts the next packet.
pub network_receive_packet_lag :
    (c : Card) (size max_length : ℕ)
    → c.initialized ≡ true
    → load16 c.rx_buffer c.rx_offset % 2 ≡ 1
    → load16 c.rx_buffer (c.rx_offset + 2) ≡ size
    → 60 ≤ size
    → size ≤ 1518
    → size ≤ max_length + 4
    → c.rx_offset + size + 8 ≤ 8192
    → ((network_receive_packet c false max_length).1
        ≡ packet (take (size - 4) (drop (c.rx_offset + 4) c.rx_buffer)))
      × ((network_receive_packet c false max_length).0.rx_offset + 4
          ≡ (c.rx_offset + 4 + size + 3) / 4 * 4)
unfolding network_receive_packet
network_receive_packet_lag c size max_length i s l h k m r =
    rw (i, l, valid, good, least, low) (refl, omega arith)
  where
    valid : (load16 c.rx_buffer c.rx_offset % 2 == 0) ≡ false
    valid = ground arith

    good : (ltb size 60 || ltb 1518 size) ≡ false
    good = ground arith

    least : min (size - 4) max_length ≡ size - 4
    least = ground arith

    low : leb 8192 ((c.rx_offset + (size - 4) + 4 + 3) / 4 * 4 % 65536) ≡ false
    low = ground arith
