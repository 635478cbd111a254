-- ===== src/Controller/Lifecycle/Saving.antt =====
-- How the programs that send a status go on in the way through the phases.
use mathlib.Core.Path.{subst}
use proxmox_operator.Base.{◌≡◌, refl, sym, ◌∙◌, ◌∷◌, Option, none, some, false, arith}
use proxmox_operator.Base.Text.{Text}
use proxmox_operator.Base.Errors.{Error, Result, ok, err, is_conflict}
use proxmox_operator.Crd.{Phase, Machine}
use proxmox_operator.World.{World, Log, M, ◌>>=◌, update_status, return, time}
use proxmox_operator.World.Triple.{
  Triple, Triple-return, Triple-bind, Triple-before, Triple-call, Triple-result, Triple-if,
  Triple-of_Makes,
}
use proxmox_operator.Controller.Status.{put_condition, set_condition, update_status_with_retry}
use proxmox_operator.Controller.Create.{Requeue, report, fail_after}
use proxmox_operator.Controller.Silent.{Silent}
use proxmox_operator.Controller.Lifecycle.{PhaseStep, Walk, call, send, Stores}

module _ (before : Log) (start : Phase) where
  abbrev pub At : Phase → Log → Type 0
  At p log = Walk before start p log

  -- The log still shows a way, whatever the result is.
  abbrev pub Onward : {A : Type 0} → A → Log → Type 0
  Onward a log = (p : Phase) × At p log

  -- A program's machine has the phase of the last status.
  abbrev pub Holding : Phase → Machine → Log → Type 0
  Holding p m log = At p log × (m.status.phase ≡ p)

  -- After a log with P, a status with the phase q may be sent.
  abbrev pub Allows : (Log → Type 0) → Phase → Type 0
  Allows P q =
      (m : Machine) (a : Result Machine) (log : Log)
      → m.status.phase ≡ q
      → P log
      → At q (update_status m a ∷ log)

  pub PhaseStep-Allows : {p q : Phase} → PhaseStep p q → Allows (At p) q
  PhaseStep-Allows {p = p} s m a log e walk =
      subst (λ r. At r (update_status m a ∷ log)) e (send m a (subst (PhaseStep p) (sym e) s) walk)

  pub Silent-Triple : {A : Type 0} {m : M A} {p : Phase} → Silent m → Triple (At p) m (λ a. At p)
  Silent-Triple {p = p} s = Triple-of_Makes (At p) (λ c log h walk. call c h walk) s

  pub Triple-after_Silent :
      {A B : Type 0} {Q : B → Log → Type 0} {m : M A} {f : A → M B} {p : Phase}
      → Silent m
      → ((a : A) → Triple (At p) (f a) Q)
      → Triple (At p) (m >>= f) Q
  Triple-after_Silent {p = p} s t = Triple-bind (λ _. At p) (Silent-Triple s) t

  -- The result has the property R, too.
  pub Silent-Triple_with :
      {A : Type 0} {m : M A} {p : Phase} (R : A → Type 0)
      → ((log : Log) → R (m log).0)
      → Silent m
      → Triple (At p) m (λ a log. At p log × R a)
  Silent-Triple_with R r s = record {
    holds = λ log walk. ((Silent-Triple s).holds log walk, r log);
  }

  pub Onward-return : {A : Type 0} {p : Phase} (a : A) → Triple (At p) (return a) Onward
  Onward-return a = Triple-return a (λ log walk. (_, walk))

  pub Onward-report :
      {p : Phase} (r : Requeue) (o : Option Error) → Triple (At p) (report r o) Onward
  Onward-report r none = Onward-return _
  Onward-report r (some e) = Onward-return _

  pub Onward-fail_after :
      {p : Phase} (o : Option Error) (e : Error) → Triple (At p) (fail_after o e) Onward
  Onward-fail_after none e = Onward-return _
  Onward-fail_after (some e') e = Onward-return _

  -- The last call sent a status, and the answer was this error, which is no conflict.
  abbrev pub Refused : Error → Log → Type 0
  Refused e log =
      (m : Machine) × (earlier : Log) × (log ≡ update_status m (err e) ∷ earlier)
      × (is_conflict e ≡ false)

  -- After a status update: an error of it is that of the server.
  abbrev pub Saved : Phase → Option Error × Machine → Log → Type 0
  Saved q saved log = Holding q saved.1 log × ((e : Error) → saved.0 ≡ some e → Refused e log)

module _ (w : World) (stores : Stores w) (before : Log) (start : Phase) where
  -- Right after the server's answer to the status of m.
  abbrev Answered : Machine → Phase → Result Machine → Log → Type 0
  Answered m q a log =
      At before start q log
      × (m.status.phase ≡ q)
      × ((m' : Machine) → a ≡ ok m' → m'.status.phase ≡ q)
      × (earlier : Log) × (log ≡ update_status m a ∷ earlier)

  -- The machine that goes on has the phase that was sent.
  pub update_status_with_retry-Triple :
      {P : Log → Type 0} {q : Phase} (m : Machine)
      → Allows before start P q
      → Triple
          (λ log. P log × (m.status.phase ≡ q))
          (update_status_with_retry w m)
          (Saved before start q)
  unfolding update_status_with_retry
  update_status_with_retry-Triple {q = q} m h =
      Triple-bind (Answered m q)
        (Triple-call _ _ (λ log (p, e).
          (h m _ log e p, e, (λ m' k. stores.stores_status m m' log k ∙ e), log, refl)))
        (λ answer.
          Triple-result (Answered m q) answer
            (λ failure.
              Triple-if (is_conflict failure)
                (λ b. Triple-return _ (λ log (walk, e, phase, earlier, sent).
                  ((walk, e), (λ f k. absurd (ground arith)))))
                (λ b. Triple-return _ (λ log (walk, e, phase, earlier, sent).
                  ((walk, e), (λ f k. (m, earlier, ground arith, ground arith))))))
            (λ m'. Triple-return _ (λ log (walk, e, phase, earlier, sent).
              ((walk, phase m' refl), (λ f k. absurd (ground arith))))))

  -- Setting the condition makes no call, and the phase stays.
  pub set_condition-Triple :
      {P : Log → Type 0} {q : Phase} (status reason message : Text) (m : Machine)
      → Triple
          (λ log. P log × (m.status.phase ≡ q))
          (set_condition w status reason message m)
          (λ m' log. P log × (m'.status.phase ≡ q))
  unfolding set_condition ◌>>=◌ return time put_condition
  set_condition-Triple status reason message m = record { holds = λ log p. p }

  -- The condition is set, and the status is sent.
  pub save-Triple :
      {A : Type 0} {P : Log → Type 0} {Q : A → Log → Type 0} {q : Phase}
      (status reason message : Text) (m : Machine) {k : Option Error × Machine → M A}
      → Allows before start P q
      → ((saved : Option Error × Machine) → Triple (Saved before start q saved) (k saved) Q)
      → Triple
          (λ log. P log × (m.status.phase ≡ q))
          (set_condition w status reason message m >>= λ m'. update_status_with_retry w m' >>= k)
          Q
  save-Triple {P = P} {q = q} status reason message m h t =
      Triple-bind (λ m' log. P log × (m'.status.phase ≡ q))
        (set_condition-Triple status reason message m)
        (λ m'. Triple-bind (Saved before start q) (update_status_with_retry-Triple m' h) t)

  -- The machine's phase is known, and what comes after looks at no error.
  pub mark-Triple :
      {A : Type 0} {Q : A → Log → Type 0} {p q : Phase} (status reason message : Text) (m : Machine)
      {k : Option Error × Machine → M A}
      → PhaseStep p q
      → m.status.phase ≡ q
      → ((saved : Option Error × Machine) → Triple (Holding before start q saved.1) (k saved) Q)
      → Triple
          (At before start p)
          (set_condition w status reason message m >>= λ m'. update_status_with_retry w m' >>= k)
          Q
  mark-Triple status reason message m step e t =
      Triple-before (λ log walk. (walk, e))
        (save-Triple status reason message m (PhaseStep-Allows before start step)
          (λ saved. Triple-before (λ log s. s.0) (t saved)))
