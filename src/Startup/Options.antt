-- ===== src/Startup/Options.antt =====
-- src/client.cpp and src/master.cpp: the options of the command line.
use open_workload_scheduler.Base.{
  String, Bool, false, Option, none, some, List, ◌≡◌, arith, subst, sym, ap, ◌∙◌, inl, inr,
  Bool-cases, Option-cases, if◌then◌else◌,
}
use open_workload_scheduler.Base.Int.{ℤ}
use open_workload_scheduler.Effect.{M, returned, pure}
use open_workload_scheduler.Platform.{Platform}
use open_workload_scheduler.Router.Index.{Insert}
use open_workload_scheduler.Startup.{
  Process, Start, exit_success, exit_failure, listening, World, Times, client_start, master_start,
}
use open_workload_scheduler.Startup.Client.{IsJoined, client_start-IsJoined}

-- What Boost makes of the command line: the options that are present, and the value of `config`.
pub record Options : Type 0 where
  pub check : Bool
  pub config : Option String
  pub daemon : Bool
  pub help : Bool
  pub verbose : Bool

-- The tests of both programs behind their options.
unfoldable pub with_options : Options → (String → M Process Start) → M Process Start
with_options o run =
    if o.help
    then pure exit_success
    else elim o.config [ none ↦ pure exit_failure | some file ↦ run file ]

module _ (p : Platform) where
  -- `main` of the client
  unfoldable pub client_main : Insert → World → Options → M Process Start
  unfolding with_options client_start
  client_main place world o = with_options o (client_start p place world)

  -- `main` of the master
  unfoldable pub master_main : ℤ → List Times → Options → M Process Start
  unfolding with_options master_start
  master_main now rounds o = with_options o (master_start p now rounds)

  with_options_file :
      (o : Options) (run : String → M Process Start) (file : String) (s : Process)
      → o.help ≡ false
      → o.config ≡ some file
      → with_options o run s ≡ run file s
  unfolding with_options
  with_options_file o run file s no_help given = rw (no_help, given)

  -- If the client comes to listen, then the option help was not given and the option config was,
  -- its router knows a peer and a master, and the file gave a running mode, which is set.
  pub client_main-IsJoined :
      (place : Insert) (world : World) (o : Options) (s : Process)
      → (client_main place world o s).0 ≡ returned listening
      → (o.help ≡ false)
        × ((file : String) × (o.config ≡ some file))
        × IsJoined (client_main place world o s).1
  unfolding client_main with_options
  client_main-IsJoined place world o s h = elim (Bool-cases o.help) [
    | inl help ↦ absurd (ground arith)
    | inr no_help ↦ elim (Option-cases o.config) [
      | inl missing ↦ absurd (ground arith)
      | inr (file, given) ↦
          let same : client_main place world o s ≡ client_start p place world file s =
            with_options_file o (client_start p place world) file s no_help given in
          (
            no_help,
            (file, given),
            subst (λ t. IsJoined t.1) (sym same)
                (client_start-IsJoined p place world file s (ap (λ t. t.0) (sym same) ∙ h)),
          )
    ]
  ]
