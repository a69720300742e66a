-- ===== src/Entry.antt =====
-- `main` and `initializeLogs` of src/main.cpp: what the program does with its command line. The parser
-- of the command line is Boost's, and what it found is taken as it is; the sinks of the loggers are
-- seen as the file that they write to.
pub mod FirstRun
use ash_coin.Base.{
  Bool, true, false, Option, none, some, List, [], Text, txt, text_eq, pos, if◌then◌else◌, not,
}
use ash_coin.External.{External}
use ash_coin.Utils.{default_config_file, default_database_folder, default_peers_file}
use ash_coin.Settings.{
  Lexical, Value, Ended, returns, throws, crashes, Settings, value_string, value_bool,
}
use ash_coin.Settings.Registered.{init_settings}
use ash_coin.Database.Load.{File}
use ash_coin.App.Rest.Create.{wallet_json}
use ash_coin.App.Start.{World, Started, run}

-- The options that were given.
pub record Options : Type 0 where
  pub help : Bool
  pub version : Bool
  pub config : Option Text
  pub createwallet : Bool

-- What `main` takes from the machine: the folders, the files of settings, those of blocks by the
-- settings that name them, which folders there are, and Boost's `/` on paths.
pub record Machine : Type 0 where
  pub user_home : Text
  pub data_home : Text
  pub settings_file : Text → Option (List (Text × Value))
  pub block_file : Settings → File
  pub folder_exists : Text → Bool
  pub slash : Text → Text → Text
  pub world : World

-- The level of the loggers, a folder that is created, and the file that is written.
pub record Logs : Type 0 where
  pub level : Text
  pub created : Option Text
  pub file : Option Text

-- `initializeLogs`
unfoldable pub initialize_logs : Machine → Settings → Logs
unfolding value_string value_bool
initialize_logs m s =
    let level = value_string (txt "logs.level") (txt "info") s in
    let folder = value_string (txt "logs.file.folder") [] s in
    if value_bool (txt "logs.file.enabled") false s
    then (if text_eq folder []
        then record { level = level; created = none; file = none }
        else record {
          level = level;
          created = if m.folder_exists folder then none else some folder;
          file = some (m.slash folder (txt "ash.log"));
        })
    else record { level = level; created = none; file = none }

-- How `main` ends: with the text of the options or of a wallet, with an exception or a null pointer
-- among the settings, or with the application, whose `run` may throw.
pub data Course : Type 0 where
  prints_options : Course
  prints_wallet : Text → Course
  refuses_settings : Course
  crashes_settings : Course
  runs : Logs → Option Started → Course

-- The file of settings.
unfoldable pub config_file : Options → Machine → Text
unfolding default_config_file
config_file o m = elim o.config [ none ↦ default_config_file m.user_home | some f ↦ f ]

module _ {J : Type 0} (x : External J) where
  open x.json use {dump_indent}

  -- `main` behind the settings.
  unfoldable pub run_with : Machine → Ended Settings → Course
  unfolding initialize_logs run
  run_with m (returns s) = runs (initialize_logs m s) (run x m.world s (m.block_file s))
  run_with m throws = refuses_settings
  run_with m crashes = crashes_settings

  -- `main`, where `private_key` is what `GeneratePrivateKey` draws.
  unfoldable pub main : Lexical → Options → Text → Machine → Course
  unfolding wallet_json config_file init_settings run_with default_database_folder
      default_peers_file
  main l o private_key m =
      if o.help
      then prints_options
      else if o.createwallet
      then prints_wallet (dump_indent (pos 4) (wallet_json x private_key))
      else run_with m (
          init_settings l (default_database_folder m.data_home) (default_peers_file m.data_home)
            (m.settings_file (config_file o m)))
