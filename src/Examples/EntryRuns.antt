-- ===== src/Examples/EntryRuns.antt =====
-- The program on a machine that it was not run on before.
use ash_coin.Base.{◌≡◌, refl, false, true, none, some, txt, ◌++◌, ◌∷◌}
use ash_coin.App.Start.{no_address}
use ash_coin.Entry.{Options, Machine, runs, main}
use ash_coin.Entry.FirstRun.{first_logs, main_first_run}
use ash_coin.Examples.{small}
use ash_coin.Examples.SettingsRuns.{plain}
use ash_coin.Examples.StartRuns.{world}

abbrev new_machine : Machine
new_machine = record {
  user_home = txt "/u";
  data_home = txt "/u";
  settings_file = λ f. none;
  block_file = λ s. none;
  folder_exists = λ f. false;
  slash = λ a b. a ++ (47 ∷ b);
  world = world;
}

abbrev only_version : Options
only_version = record { help = false; version = true; config = none; createwallet = false }

main_first_run_example :
    main small plain only_version (txt "1") new_machine
    ≡ runs (first_logs new_machine) (some no_address)
main_first_run_example =
    main_first_run small plain new_machine only_version (txt "1") refl refl refl
