-- ===== src/Settings/Registered.antt =====
-- `registerSettings` and `initSettings` of src/main.cpp.
pub mod Ports
use ash_coin.Base.{ℕ, ◌*◌, Bool, true, false, Option, none, some, List, [], Text, txt}
use ash_coin.Settings.{
  Lexical, Value, load, Validator, not_empty, range_u64, Ended, returns, throws, crashes, Settings,
  register_string, register_u_int, register_bool,
}

-- The call that follows one that returned.
infixl 5 ◌then◌
abbrev pub ◌then◌ : Ended Settings → (Settings → Ended Settings) → Ended Settings
returns s then f = f s
throws then f = throws
crashes then f = crashes

abbrev pub no_settings : Settings
no_settings = record { settings = []; defaults = []; validators = [] }

abbrev pub filesize_min : ℕ
filesize_min = 1024

abbrev pub filesize_max : ℕ
filesize_max = 1024 * 1024 * 1024

abbrev pub filesize_default : ℕ
filesize_default = 1024 * 1024 * 5

-- `HTTPServerPortDefault` and `WebSocketServerPorDefault` of src/MinerApp.h
abbrev pub http_port_default : ℕ
http_port_default = 27182

abbrev pub ws_port_default : ℕ
ws_port_default = 14142

-- The range that all three numbers are given, the ports too.
abbrev pub filesize_range : Validator
filesize_range = range_u64 filesize_min filesize_max

module _ (x : Lexical) where
  abbrev pub add_string : Text → Text → Option Validator → Settings → Ended Settings
  add_string name v validator s = register_string x name v validator s

  -- `dbfolder` and `peers` are the default folder and file of src/AshUtils.cpp.
  unfoldable pub register_settings : (dbfolder peers : Text) → Ended Settings
  unfolding register_string register_u_int register_bool
  register_settings dbfolder peers =
      returns (register_bool (txt "chain.reset.enable") true no_settings)
      then add_string (txt "database.folder") dbfolder (some not_empty)
      then (λ s. returns (
          register_bool (txt "mining.autostart") false (
            register_u_int (txt "database.filesize.max") filesize_default (some filesize_range) s)))
      then add_string (txt "mining.miner.address") (txt "<CHANGE ME>") (some not_empty)
      then (λ s. returns (
          register_bool (txt "rest.autoload") false (
            register_u_int (txt "websocket.port") ws_port_default (some filesize_range)
              (register_u_int (txt "rest.port") http_port_default (some filesize_range) s))))
      then add_string (txt "peers.file") peers (some not_empty)
      then add_string (txt "logs.level") (txt "info") none
      then (λ s. returns (register_bool (txt "logs.file.enabled") true s))
      then add_string (txt "logs.file.folder") dbfolder (some not_empty)

  -- `initSettings`: the settings of the file are loaded, if there is one. Otherwise the file is
  -- written, which does not change the settings.
  unfoldable pub init_settings :
      (dbfolder peers : Text) → Option (List (Text × Value)) → Ended Settings
  unfolding register_settings load
  init_settings dbfolder peers file = register_settings dbfolder peers then λ s.
      let (count, s') = load x file s in elim count [ none ↦ throws | some _ ↦ returns s' ]
