-- ===== src/Examples/MachineRuns.antt =====
-- Runs of the identity of a machine.
use ash_coin.Base.{◌+◌, ◌≡◌, refl, true, some, txt, [], ◌∷◌, arith}
use ash_coin.ComputerId.{new_computer_id, get_uuid}
use ash_coin.ComputerId.Mac.{
  Interface, Calls, returned, get_uuid_mac, get_uuid_mac_ends, attempt, read_all, hex_address,
  hex_octet,
}

-- One interface, whose address is 1:2:3:4:5:6.
abbrev one_card : Calls
one_card = record {
  if_nametoindex = λ round name. 1;
  sysctl_size = λ round index. some 128;
  malloc = λ round size. true;
  sysctl_fill = λ round index. some (record { is_ether = true; octet = λ k. k + 1 });
}

abbrev card : Interface
card = record { has_address = true; name = txt "en0" }

get_uuid_mac_ends_example :
    get_uuid_mac one_card (λ s. s) (txt "host ") [] new_computer_id 2 (some (card ∷ []))
    ≡ returned (txt "host 1:2:3:4:5:6")
unfolding read_all attempt get_uuid hex_address hex_octet
get_uuid_mac_ends_example =
    get_uuid_mac_ends one_card (λ round i. refl) (λ s. s) (txt "host ") [] new_computer_id 2
      (card ∷ []) (omega arith)
