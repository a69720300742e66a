-- ===== src/ComputerId/Mac.antt =====
-- src/ComputerIDMac.cpp: the identity of a machine with macOS, from the link addresses of its network
-- interfaces. The calls of the system are parameters.
use ash_coin.Base.{
  ℕ, zero, suc, ◌+◌, ◌/◌, ◌%◌, ◌<◌, ◌≡◌, refl, Bool, not, Option, none, some, List, [], ◌∷◌, ◌++◌,
  append_assoc, append-nil, Text, ltb, ◌==◌, if◌then◌else◌, length, ◌>>=◌, Option-cases, inl, inr,
  arith,
}
use ash_coin.ComputerId.{ComputerId, get_uuid}

-- An element of the list that `getifaddrs` makes.
pub record Interface : Type 0 where
  pub has_address : Bool
  pub name : Text

-- What `sysctl` writes of an interface: its `sdl_type`, and the memory behind `LLADDR`.
pub record LinkAddress : Type 0 where
  pub is_ether : Bool
  pub octet : ℕ → ℕ

-- The answers of the system in each round of the loop: the index of a name, the size of what `sysctl`
-- would write, whether there is so much memory, and what it writes. An index is 0 and `none` is given
-- where a call fails.
pub record Calls : Type 0 where
  pub if_nametoindex : ℕ → Text → ℕ
  pub sysctl_size : ℕ → ℕ → Option ℕ
  pub malloc : ℕ → ℕ → Bool
  pub sysctl_fill : ℕ → ℕ → Option LinkAddress

-- How far a call is once it has used its fuel.
pub data Progress : Type 0 where
  running : Progress
  threw : Progress
  returned : Text → Progress

abbrev hex_digit : ℕ → ℕ
hex_digit d = if ltb d 10 then 48 + d else 87 + d

-- `stream << std::hex` of an octet, which is not padded.
unfoldable pub hex_octet : ℕ → Text
hex_octet n =
    if ltb n 16 then hex_digit n ∷ [] else hex_digit (n / 16 % 16) ∷ (hex_digit (n % 16) ∷ [])

-- The six octets of an address and the colons between them.
unfoldable pub hex_address : (ℕ → ℕ) → Text
unfolding hex_octet
hex_address octet =
    hex_octet (octet 0)
    ++ (58
        ∷ (hex_octet (octet 1)
            ++ (58
                ∷ (hex_octet (octet 2)
                    ++ (58
                        ∷ (hex_octet (octet 3)
                            ++ (58 ∷ (hex_octet (octet 4) ++ (58 ∷ hex_octet (octet 5))))))))))

module _ (c : Calls) where
  open c use {if_nametoindex, sysctl_size, malloc, sysctl_fill}

  -- What a round of the loop adds for an interface; `none` is a `continue`, which stays at it.
  unfoldable pub attempt : ℕ → Interface → Option Text
  unfolding hex_address
  attempt round i =
      let index = if_nametoindex round i.name in
      if not i.has_address
      then some []
      else if index == 0
      then none
      else sysctl_size round index >>= λ len.
          if not (malloc round len)
          then none
          else sysctl_fill round index >>= λ a.
              some (if a.is_ether then hex_address a.octet else [])

  -- The loop of `getMacString`.
  unfoldable pub mac_loop : (fuel round : ℕ) → List Interface → Text → Progress
  unfolding attempt
  mac_loop zero round ifs builder = running
  mac_loop (suc fuel) round [] builder = returned builder
  mac_loop (suc fuel) round (i ∷ ifs) builder = elim (attempt round i) [
    | none ↦ mac_loop fuel (suc round) (i ∷ ifs) builder
    | some t ↦ mac_loop fuel (suc round) ifs (builder ++ t)
  ]

  -- `getMacString`, where `none` says that `getifaddrs` failed.
  unfoldable pub get_mac_string : ℕ → Option (List Interface) → Progress
  unfolding mac_loop
  get_mac_string fuel none = threw
  get_mac_string fuel (some ifs) = mac_loop fuel 0 ifs []

  -- `getUUID`
  unfoldable pub get_uuid_mac :
      (sha1 : Text → Text) (host_name this : Text)
      → ComputerId
      → ℕ
      → Option (List Interface)
      → Progress
  unfolding get_mac_string
  get_uuid_mac sha1 host_name this id fuel answer = elim (get_mac_string fuel answer) [
    | running ↦ running
    | threw ↦ threw
    | returned mac ↦ returned (
        sha1
          (host_name ++ (mac ++ ((if id.unique_per_process then this else []) ++ id.custom_data))))
  ]

  -- What the interfaces add together, if each of them can be read.
  unfoldable pub read_all : List Interface → Option Text
  unfolding attempt
  read_all [] = some []
  read_all (i ∷ ifs) = attempt 0 i >>= λ t. read_all ifs >>= λ ts. some (t ++ ts)

  module _ (steady : (round : ℕ) (i : Interface) → attempt round i ≡ attempt 0 i) where
    mac_loop_stays :
        (fuel round : ℕ) (i : Interface) (ifs : List Interface) (builder : Text)
        → attempt 0 i ≡ none
        → mac_loop fuel round (i ∷ ifs) builder ≡ running
    unfolding mac_loop
    mac_loop_stays zero round i ifs builder e = refl
    mac_loop_stays (suc fuel) round i ifs builder e =
        rw (mac_loop, steady round i, e) (mac_loop_stays fuel (suc round) i ifs builder e)

    mac_loop_ends :
        (fuel round : ℕ) (ifs : List Interface) (builder : Text)
        → length ifs < fuel
        → mac_loop fuel round ifs builder
          ≡ elim (read_all ifs) [ none ↦ running | some t ↦ returned (builder ++ t) ]
    unfolding mac_loop read_all
    mac_loop_ends zero round ifs builder h = absurd (omega arith)
    mac_loop_ends (suc fuel) round [] builder h = rw (append-nil builder) refl
    mac_loop_ends (suc fuel) round (i ∷ ifs) builder h = elim (Option-cases (attempt 0 i)) [
      | inl e ↦
          rw (mac_loop, read_all, steady round i, e)
            (mac_loop_stays fuel (suc round) i ifs builder e)
      | inr (t, e) ↦
          rw
            (
              mac_loop,
              read_all,
              steady round i,
              e,
              mac_loop_ends fuel (suc round) ifs (builder ++ t) (omega arith),
            )
            (elim (Option-cases (read_all ifs)) [
              | inl f ↦ rw f refl
              | inr (ts, f) ↦ rw (f, append_assoc builder t ts) refl
            ])
    ]

    -- Where the system gives the same answers in each round, and with more fuel than there are
    -- interfaces, `getUUID` on macOS returns exactly if each interface that has an address can be
    -- read, and then what it returns on other systems for a host whose name is followed by the texts
    -- of the interfaces. Otherwise it is in the loop still, whatever the fuel.
    pub get_uuid_mac_ends :
        (sha1 : Text → Text) (host_name this : Text) (id : ComputerId) (fuel : ℕ)
        (ifs : List Interface)
        → length ifs < fuel
        → get_uuid_mac sha1 host_name this id fuel (some ifs) ≡ elim (read_all ifs) [
          | none ↦ running
          | some mac ↦ returned (get_uuid sha1 (host_name ++ mac) this id)
        ]
    unfolding get_uuid_mac get_mac_string get_uuid
    get_uuid_mac_ends sha1 host_name this id fuel ifs h =
        rw (get_uuid_mac, mac_loop_ends fuel 0 ifs [] h)
          (elim (Option-cases (read_all ifs)) [
            | inl e ↦ rw e refl
            | inr (mac, e) ↦
                rw
                  (
                    e,
                    append_assoc host_name mac
                        ((if id.unique_per_process then this else []) ++ id.custom_data),
                  )
                  refl
          ])
