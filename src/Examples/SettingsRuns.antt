-- ===== src/Examples/SettingsRuns.antt =====
-- Runs of the settings.
use ash_coin.Base.{assign, ◌≡◌, refl, ◌↔◌, true, false, some, txt, text_eq, [], pos}
use ash_coin.Settings.{
  Lexical, boolean, bool_text, register, Settings, returns, put, register_bool, set, set_no_throw,
}
use ash_coin.Settings.Agree.{set_iff}
use ash_coin.Settings.Types.{Made, starts, registers, sets, Made-IsTyped, type_at}

abbrev pub plain : Lexical
plain = record {
  to_u32 = λ s. some 0;
  to_u64 = λ s. some 0;
  to_i32 = λ s. some (pos 0);
  iequals = text_eq;
  dump = λ v. txt "on";
}

abbrev none_yet : Settings
none_yet = record { settings = []; defaults = []; validators = [] }

abbrev registered : Settings
unfolding register_bool
registered = register_bool (txt "mining.autostart") false none_yet

set_iff_example :
    (set plain (txt "mining.autostart") (txt "on") registered
      ≡ returns (put (txt "mining.autostart") (boolean true) registered))
    ↔ (set_no_throw plain (txt "mining.autostart") (txt "on") registered
        ≡ returns (true, put (txt "mining.autostart") (boolean true) registered))
set_iff_example =
    set_iff plain (txt "mining.autostart") (txt "on") registered
      (put (txt "mining.autostart") (boolean true) registered)

-- A Boolean setting that is registered and set to `on`.
typed-Made : Made plain (put (txt "mining.autostart") (boolean true) registered)
unfolding set register_bool register assign
typed-Made =
    sets {s = registered} (txt "mining.autostart") (txt "on")
      (registers (txt "mining.autostart") (boolean false) (some bool_text) starts) refl

Made-IsTyped_example :
    type_at
      (txt "mining.autostart")
      ((put (txt "mining.autostart") (boolean true) registered).settings)
    ≡ type_at (txt "mining.autostart") (registered.defaults)
Made-IsTyped_example = Made-IsTyped plain typed-Made (txt "mining.autostart")
