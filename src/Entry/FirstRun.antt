-- ===== src/Entry/FirstRun.antt =====
-- The first run of the program of src/main.cpp.
use mathlib.Core.Path.{subst}
use ash_coin.Base.{
  ℕ, ◌≡◌, ◌∙◌, ap, sym, refl, Option, List, true, false, none, some, [], ◌∷◌, ◌++◌, Text, txt,
  lookup, assign, if◌then◌else◌, text_eq,
}
use ash_coin.External.{External}
use ash_coin.Utils.{default_database_folder, default_peers_file}
use ash_coin.Settings.{
  Lexical, Value, load, returns, Settings, register, register_string, register_u_int, register_bool,
  validate, is_valid, value_string, value_bool,
}
use ash_coin.Settings.Registered.{register_settings, init_settings}
use ash_coin.Settings.Registered.Ports.{result}
use ash_coin.Database.Load.{File}
use ash_coin.App.Start.{no_address, reward_of, run}
use ash_coin.Entry.{Logs, Options, Machine, initialize_logs, runs, run_with, config_file, main}

-- What a text is that has something behind it.
begins : (s : Text) (c : ℕ) (t : Text) → (a : ℕ) × (u : Text) × (s ++ (c ∷ t) ≡ a ∷ u)
begins [] c t = (c, t, refl)
begins (a ∷ s) c t = (a, s ++ (c ∷ t), refl)

-- What the program goes on with where there is no file of settings.
abbrev IsFirst : Text → Settings → Type 0
IsFirst db s =
    (reward_of s ≡ txt "<CHANGE ME>")
    × (value_string (txt "logs.level") (txt "info") s ≡ txt "info")
    × (value_string (txt "logs.file.folder") [] s ≡ db)
    × (value_bool (txt "logs.file.enabled") false s ≡ true)

-- The settings are registered, and are such.
abbrev Registers : Lexical → (db peers : Text) → Type 0
Registers l db peers =
    (s : Settings) × (init_settings l db peers none ≡ returns s)
    × IsFirst db s
    × (text_eq db [] ≡ false)

registered : (l : Lexical) (a b : ℕ) (db peers : Text) → Registers l (a ∷ db) (b ∷ peers)
unfolding init_settings load register_settings register_string register_u_int register_bool register
    validate is_valid lookup assign value_string value_bool reward_of
registered l a b db peers =
    (result (register_settings l (a ∷ db) (b ∷ peers)), refl, (refl, refl, refl, refl), refl)

first_settings :
    (l : Lexical) (data_home : Text)
    → Registers l (default_database_folder data_home) (default_peers_file data_home)
unfolding default_database_folder default_peers_file
first_settings l data_home =
    let (a, db, d) = begins data_home 47 (txt "AshChain") in
    let (b, peers, p) = begins (default_database_folder data_home) 47 (txt "peers.txt") in
    subst (Registers l (default_database_folder data_home)) (sym p)
      (subst (λ (v : Text). Registers l v (b ∷ peers)) (sym d) (registered l a b db peers))

module _ (m : Machine) where
  abbrev pub database_folder : Text
  unfolding default_database_folder
  database_folder = default_database_folder m.data_home

  -- The loggers with the settings that are registered.
  abbrev pub first_logs : Logs
  first_logs = record {
    level = txt "info";
    created = if m.folder_exists database_folder then none else some database_folder;
    file = some (m.slash database_folder (txt "ash.log"));
  }

  first_logs-eq :
      (s : Settings)
      → IsFirst database_folder s
      → text_eq database_folder [] ≡ false
      → initialize_logs m s ≡ first_logs
  unfolding initialize_logs
  first_logs-eq s (address, level, folder, enabled) some_folder =
      rw (level, folder, enabled, some_folder) refl

module _ {J : Type 0} (x : External J) (l : Lexical) (m : Machine) where
  without_address :
      (s : Settings) (file : File)
      → reward_of s ≡ txt "<CHANGE ME>"
      → run x m.world s file ≡ some no_address
  unfolding run
  without_address s file address = rw address refl

  runs_first :
      (s : Settings)
      → IsFirst (database_folder m) s
      → text_eq (database_folder m) [] ≡ false
      → run_with x m (returns s) ≡ runs (first_logs m) (some no_address)
  unfolding run_with
  runs_first s first some_folder =
      rw (first_logs-eq m s first some_folder, without_address s (m.block_file s) first.0)

  -- Where there is no file of settings, and neither the help nor a wallet is asked for, the settings
  -- that the program registers are accepted, the log goes to a file in the folder of the chain, which
  -- is created if it is not there, and then the node does not start: the address for rewards has to
  -- be set first. Whether the version was asked for makes no difference.
  pub main_first_run :
      (o : Options) (private_key : Text)
      → o.help ≡ false
      → o.createwallet ≡ false
      → m.settings_file (config_file o m) ≡ none
      → main x l o private_key m ≡ runs (first_logs m) (some no_address)
  unfolding main
  main_first_run o private_key no_help no_wallet no_file =
      let (s, accepted, first, some_folder) = first_settings l m.data_home in
      let db = default_database_folder m.data_home in
      let peers = default_peers_file m.data_home in
      rw (no_help, no_wallet)
        (ap (λ (f : Option (List (Text × Value))). run_with x m (init_settings l db peers f))
            no_file
          ∙ ap (run_with x m) accepted
          ∙ runs_first s first some_folder)
