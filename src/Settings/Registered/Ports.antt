-- ===== src/Settings/Registered/Ports.antt =====
-- The ports among the settings that `registerSettings` of src/main.cpp registers.
use ash_coin.Base.{
  ℕ, ◌≤◌, ◌≡◌, ◌↔◌, refl, sym, ap, some, [], ◌∷◌, Text, txt, lookup, assign, arith, Bool-cases, inl,
  inr, ◌&&◌, leb,
}
use ash_coin.Settings.{
  Lexical, unsigned, Ended, returns, throws, crashes, Settings, set, put, converted, validate,
  is_valid, validator_of, register, register_string, register_u_int, register_bool,
}
use ash_coin.Settings.Registered.{register_settings, no_settings, filesize_range, http_port_default}

-- What a call returns, or settings without an entry.
abbrev pub result : Ended Settings → Settings
result (returns s) = s
result throws = no_settings
result crashes = no_settings

module _ (x : Lexical) where
  -- The port of the HTTP server is a number with the range of the sizes of files.
  port_entry :
      (dbfolder peers : Text) (s : Settings)
      → register_settings x dbfolder peers ≡ returns s
      → (lookup (txt "rest.port") s.settings ≡ some (unsigned http_port_default))
        × (validator_of (txt "rest.port") s ≡ some filesize_range)
  unfolding register_settings register_string register_u_int register_bool register validate
      is_valid lookup assign
  port_entry [] peers s e = ground arith
  port_entry (a ∷ dbfolder) [] s e = ground arith
  port_entry (a ∷ dbfolder) (b ∷ peers) s e =
      let same = ap result e in
      (
        ap (λ (t : Settings). lookup (txt "rest.port") t.settings) (sym same),
        ap (λ (t : Settings). validator_of (txt "rest.port") t) (sym same),
      )

  -- With the settings that the program registers, `set` takes a number as the port of the HTTP server
  -- exactly if it is from 1024 to 2 ^ 30: numbers above 65535, which are no ports, are taken too.
  pub set-register_settings :
      (dbfolder peers v : Text) (n : ℕ) (s : Settings)
      → register_settings x dbfolder peers ≡ returns s
      → x.to_u64 v ≡ some n
      → x.to_u32 v ≡ some n
      → (set x (txt "rest.port") v s ≡ returns (put (txt "rest.port") (unsigned n) s))
        ↔ ((1024 ≤ n) × (n ≤ 1073741824))
  unfolding set validate is_valid converted
  set-register_settings dbfolder peers v n s e e64 e32 =
      let (l, m) = port_entry dbfolder peers s e in
      let checks : validate x filesize_range v ≡ (leb 1024 n && leb n 1073741824) =
        rw (validate, e64, is_valid) refl in
      rw (set, l, m, checks)
        (elim (Bool-cases (leb 1024 n && leb n 1073741824)) [
          | inl inside ↦ rw (inside, e32) (ground arith)
          | inr outside ↦ rw outside (ground arith)
        ])
