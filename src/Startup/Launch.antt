-- ===== src/Startup/Launch.antt =====
-- `main`: what is known where the container's command is run, and where it is not.
use realtime_fraud_detection.Common.{
  ◌≡◌, ◌≢◌, refl, ap, ◌∙◌, String, Option, none, some, List, [], ◌∷◌, ◌++◌, map, inl, inr,
  Option-cases, All,
}
use realtime_fraud_detection.Common.Int.{ℤ}
use realtime_fraud_detection.Common.Result.{Result, ok, err, Result-cases}
use realtime_fraud_detection.Config.{Settings}
use realtime_fraud_detection.Startup.{
  Platform, IsClock, StartError, value_error, runtime_error, Process, Target, ok_line, wait_for_all,
  targets_of, main,
}
use realtime_fraud_detection.Startup.Ready.{Reached, wait_for_all-Ended, wait_for_all-lines}

module _ {A E : Type 0} (os : Platform E) (show_int : ℤ → String) (int : String → Option ℤ)
    (settings : Settings A) where
  pub main-no_targets :
      (command : List String) (p : Process E)
      → targets_of int settings ≡ none
      → main os show_int int settings command p ≡ some (err value_error, p)
  unfolding main
  main-no_targets command p e = rw (e, main) refl

  main-waiting :
      (targets : List Target) (command : List String) (p : Process E)
      → targets_of int settings ≡ some targets
      → wait_for_all os show_int targets p ≡ none
      → main os show_int int settings command p ≡ none
  unfolding main
  main-waiting targets command p e w = rw (e, w, main) refl

  main-err :
      (error : StartError) (targets : List Target) (command : List String) (p p1 : Process E)
      → targets_of int settings ≡ some targets
      → wait_for_all os show_int targets p ≡ some (err error, p1)
      → main os show_int int settings command p ≡ some (err error, p1)
  unfolding main
  main-err error targets command p p1 e w = rw (e, w, main) refl

  main-no_command :
      (targets : List Target) (p p1 : Process E)
      → targets_of int settings ≡ some targets
      → wait_for_all os show_int targets p ≡ some (ok tt, p1)
      → main os show_int int settings [] p ≡ some (err runtime_error, p1)
  unfolding main
  main-no_command targets p p1 e w = rw (e, w, main) refl

  main-command :
      (word : String) (words : List String) (targets : List Target) (p p1 : Process E)
      → targets_of int settings ≡ some targets
      → wait_for_all os show_int targets p ≡ some (ok tt, p1)
      → main os show_int int settings (word ∷ words) p ≡ some (ok (word ∷ words), p1)
  unfolding main
  main-command word words targets p p1 e w = rw (e, w, main) refl

  command-Ended :
      (command : List String) (targets : List Target) (p p1 : Process E)
      → targets_of int settings ≡ some targets
      → wait_for_all os show_int targets p ≡ some (ok tt, p1)
      → (r : Result StartError (List String) × Process E) × (main os show_int int settings command p
          ≡ some r)
  command-Ended [] targets p p1 e w = (_, main-no_command targets p p1 e w)
  command-Ended (word ∷ words) targets p p1 e w = (_, main-command word words targets p p1 e w)

  -- Where the clock does not go back and a sleep takes no less than its time, `main` gives a value or an error
  -- at all settings, commands and states of the system: the tests of the loop's condition that the model
  -- allows, one for each second of the timeout and one more, are enough, also where no service ever answers.
  pub main-Ended :
      (laws : IsClock os) (command : List String) (p : Process E)
      → (r : Result StartError (List String) × Process E) × (main os show_int int settings command p
          ≡ some r)
  main-Ended laws command p = elim (Option-cases (targets_of int settings)) [
    | inl e ↦ (_, main-no_targets command p e)
    | inr (targets, e) ↦
        let ((r, p1), done) = wait_for_all-Ended os show_int laws targets p in
        elim (Result-cases r) [
          | inl (u, o) ↦ command-Ended command targets p p1 e (done ∙ ap (λ x. some (x, p1)) o)
          | inr (error, o) ↦
              (_, main-err error targets command p p1 e (done ∙ ap (λ x. some (x, p1)) o))
        ]
  ]

  -- what is known of a run that gives the container's command to `os.execvp`
  pub record IsReady (command words : List String) (p p1 : Process E) : Type 0 where
    pub same : words ≡ command
    pub given : command ≢ []
    pub targets : List Target
    pub listed : targets_of int settings ≡ some targets
    pub reached : All (Reached os show_int p.system) targets
    pub printed : p1.output ≡ p.output ++ map (ok_line os show_int) targets

  command-IsReady :
      (command words : List String) (targets : List Target) (p p1 q : Process E)
      → targets_of int settings ≡ some targets
      → wait_for_all os show_int targets p ≡ some (ok tt, q)
      → main os show_int int settings command p ≡ some (ok words, p1)
      → IsReady command words p p1
  command-IsReady [] words targets p p1 q e w h = cc (main-no_command targets p q e w, h)
  command-IsReady (first ∷ more) words targets p p1 q e w h =
      let run = main-command first more targets p q e w in
      let (reached, printed) = wait_for_all-lines os show_int targets p q w in
      record {
        same = cc (run, h);
        given = λ nil. cc nil;
        targets = targets;
        listed = e;
        reached = reached;
        printed = cc (run, h, printed);
      }

  -- Where `main` gives a command, it is the one it was given, which has a word; and each of the targets in the
  -- settings accepted a connection at a state that the system came to from the first one by reading the clock,
  -- connecting and sleeping. The lines printed name the targets in their order.
  pub main-IsReady :
      (command words : List String) (p p1 : Process E)
      → main os show_int int settings command p ≡ some (ok words, p1)
      → IsReady command words p p1
  main-IsReady command words p p1 h = elim (Option-cases (targets_of int settings)) [
    | inl e ↦ cc (main-no_targets command p e, h)
    | inr (targets, e) ↦ elim (Option-cases (wait_for_all os show_int targets p)) [
      | inl w ↦ cc (main-waiting targets command p e w, h)
      | inr ((r, q), w) ↦ elim (Result-cases r) [
        | inl (u, o) ↦
            command-IsReady command words targets p p1 q e (w ∙ ap (λ x. some (x, q)) o) h
        | inr (error, o) ↦
            cc (main-err error targets command p q e (w ∙ ap (λ x. some (x, q)) o), h)
      ]
    ]
  ]
