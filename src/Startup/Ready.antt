-- ===== src/Startup/Ready.antt =====
-- What waiting for the services gives: each was reached in the course of it.
use realtime_fraud_detection.Common.{
  ℕ, zero, suc, ◌≡◌, refl, sym, ap, ◌∙◌, String, Option, none, some, List, [], ◌∷◌, ◌++◌, map, ltb,
  inl, inr, Bool-cases, Option-cases, All, All-map, subst,
}
use realtime_fraud_detection.Common.Int.{ℤ}
use realtime_fraud_detection.Common.Result.{Result, ok, err, Result-cases}
use realtime_fraud_detection.Startup.{
  Platform, IsClock, StartError, Process, Target, accepted, ok_line, wait_until, wait_for_tcp,
  wait_for_all,
}
use realtime_fraud_detection.Startup.Waiting.{
  Connection-cases, wait_until-late, wait_until-accepted, wait_until-raised, wait_until-again,
  wait_for_tcp-Ended,
}
use mathlib.Core.List.{append_assoc, append-nil}

module _ {E : Type 0} (os : Platform E) (show_int : ℤ → String) where
  -- what one call of the system makes of its state
  pub data Call (e e1 : E) : Type 0 where
    time_call : e1 ≡ (os.time e).1 → Call e e1
    connection_call :
        (host : String) (port : ℤ) → e1 ≡ (os.create_connection host port 2 e).1 → Call e e1
    sleep_call : e1 ≡ os.sleep 1 e → Call e e1

  pub data Calls (e : E) : E → Type 0 where
    here : (e1 : E) → e1 ≡ e → Calls e e1
    called : (e1 e2 : E) → Calls e e1 → Call e1 e2 → Calls e e2

  Calls-trans : (e e1 e2 : E) → Calls e e1 → Calls e1 e2 → Calls e e2
  Calls-trans e e1 _ c (here e2 same) = subst (Calls e) (sym same) c
  Calls-trans e e1 _ c (called d e2 cs last) = called d e2 (Calls-trans e e1 d c cs) last

  -- from this state on, a connection to the target was accepted
  abbrev pub Reached : E → Target → Type 0
  Reached start (host, port) =
      (e : E) × Calls start e × ((os.create_connection host port 2 e).0 ≡ accepted)

  Reached-trans : (e e1 : E) (target : Target) → Calls e e1 → Reached e1 target → Reached e target
  Reached-trans e e1 (host, port) c (e2, d, accept) = (e2, Calls-trans e e1 e2 c d, accept)

  -- the equations of `wait_for_all`, by what waiting for the first target gave
  wait_for_all-ok :
      (target : Target) (targets : List Target) (p p1 : Process E)
      → wait_for_tcp os show_int 60 target p ≡ some (ok tt, p1)
      → wait_for_all os show_int (target ∷ targets) p ≡ wait_for_all os show_int targets p1
  unfolding wait_for_all
  wait_for_all-ok target targets p p1 e = rw (e, wait_for_all) refl

  wait_for_all-err :
      (error : StartError) (target : Target) (targets : List Target) (p p1 : Process E)
      → wait_for_tcp os show_int 60 target p ≡ some (err error, p1)
      → wait_for_all os show_int (target ∷ targets) p ≡ some (err error, p1)
  unfolding wait_for_all
  wait_for_all-err error target targets p p1 e = rw (e, wait_for_all) refl

  wait_for_all-none :
      (target : Target) (targets : List Target) (p : Process E)
      → wait_for_tcp os show_int 60 target p ≡ none
      → wait_for_all os show_int (target ∷ targets) p ≡ none
  unfolding wait_for_all
  wait_for_all-none target targets p e = rw (e, wait_for_all) refl

  module _ (laws : IsClock os) where
    pub wait_for_all-Ended :
        (targets : List Target) (p : Process E)
        → (r : Result StartError (Unit {0}) × Process E) × (wait_for_all os show_int targets p
            ≡ some r)
    unfolding wait_for_all
    wait_for_all-Ended [] p = (_, refl)
    wait_for_all-Ended (target ∷ targets) p =
        let ((r, p1), done) = wait_for_tcp-Ended os laws show_int 60 target p in
        elim (Result-cases r) [
          | inl (u, e) ↦
              let (q, rest) = wait_for_all-Ended targets p1 in
              (q, wait_for_all-ok target targets p p1 (done ∙ ap (λ x. some (x, p1)) e) ∙ rest)
          | inr (error, e) ↦
              (_, wait_for_all-err error target targets p p1 (done ∙ ap (λ x. some (x, p1)) e))
        ]

  -- that the target was waited for
  abbrev Waited : Target → Process E → Process E → Type 0
  Waited target p p1 =
      Reached p.system target
      × Calls p.system p1.system
      × (p1.output ≡ p.output ++ ok_line os show_int target ∷ [])

  Waited-after :
      (target : Target) (p p1 : Process E) (e : E)
      → Calls p.system e
      → Waited target (record p { system = e }) p1
      → Waited target p p1
  Waited-after target p p1 e c (reach, calls, line) =
      (Reached-trans p.system e target c reach, Calls-trans p.system e p1.system c calls, line)

  wait_until-ok :
      (n deadline : ℕ) (last_error : Option String) (target : Target) (p p1 : Process E)
      → wait_until os show_int n deadline last_error target p ≡ some (ok tt, p1)
      → Waited target p p1
  unfolding wait_until
  wait_until-ok zero deadline last_error (host, port) p p1 h = cc
  wait_until-ok (suc n) deadline last_error (host, port) p p1 h =
      let (now, e1) = os.time p.system in
      let e2 = (os.create_connection host port 2 e1).1 in
      let read : Calls p.system e1 = called p.system e1 (here p.system refl) (time_call refl) in
      let tried : Calls p.system e2 = called e1 e2 read (connection_call host port refl) in
      elim (Bool-cases (ltb now deadline)) [
        | inl e ↦ elim (Connection-cases (os.create_connection host port 2 e1).0) [
          | inl c ↦
              let done = wait_until-accepted os show_int n deadline last_error host port p e c in
              let same : p1.system ≡ e2 = cc (done, h) in
              ((e1, read, c), subst (Calls p.system) (sym same) tried, cc (done, h))
          | inr (inl (text, c)) ↦
              let e3 = os.sleep 1 e2 in
              Waited-after (host, port) p p1 e3 (called e2 e3 tried (sleep_call refl))
                (wait_until-ok n deadline (some text) (host, port) (record p { system = e3 }) p1
                  (sym (wait_until-again os show_int n deadline last_error host port p text e c)
                    ∙ h))
          | inr (inr (text, c)) ↦
              cc (wait_until-raised os show_int n deadline last_error host port p text e c, h)
        ]
        | inr e ↦ cc (wait_until-late os show_int n deadline last_error host port p e, h)
      ]

  wait_for_tcp-ok :
      (timeout : ℕ) (target : Target) (p p1 : Process E)
      → wait_for_tcp os show_int timeout target p ≡ some (ok tt, p1)
      → Waited target p p1
  unfolding wait_for_tcp
  wait_for_tcp-ok timeout target p p1 h =
      let e1 = (os.time p.system).1 in
      Waited-after target p p1 e1 (called p.system e1 (here p.system refl) (time_call refl))
        (wait_until-ok (suc timeout) _ none target (record p { system = e1 }) p1 h)

  -- all were reached, and the lines were printed in their order
  pub wait_for_all-lines :
      (targets : List Target) (p p1 : Process E)
      → wait_for_all os show_int targets p ≡ some (ok tt, p1)
      → All (Reached p.system) targets × (p1.output ≡ p.output ++ map (ok_line os show_int) targets)
  unfolding wait_for_all
  wait_for_all-lines [] p p1 h = (tt, cc (append-nil p.output, h))
  wait_for_all-lines (target ∷ targets) p p1 h =
      elim (Option-cases (wait_for_tcp os show_int 60 target p)) [
        | inl e ↦ cc (wait_for_all-none target targets p e, h)
        | inr ((r, q), e) ↦ elim (Result-cases r) [
          | inl (u, o) ↦
              let done = e ∙ ap (λ x. some (x, q)) o in
              let (first, calls, line) = wait_for_tcp-ok 60 target p q done in
              let (others, lines) =
                wait_for_all-lines targets q p1
                  (sym (wait_for_all-ok target targets p q done) ∙ h) in
              (
                (first, All-map targets (λ t. Reached-trans p.system q.system t calls) others),
                lines
                    ∙ ap (λ l. l ++ map (ok_line os show_int) targets) line
                    ∙ append_assoc p.output (ok_line os show_int target ∷ [])
                        (map (ok_line os show_int) targets),
              )
          | inr (error, o) ↦
              cc (wait_for_all-err error target targets p q (e ∙ ap (λ x. some (x, q)) o), h)
        ]
      ]
