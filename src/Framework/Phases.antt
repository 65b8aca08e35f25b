-- ===== src/Framework/Phases.antt =====
-- A framework as its users see it: idle, registered, or open for a number of users.
use libocoms.Prelude.{ℕ, zero, suc, ◌+◌, ◌≡◌, List, [], ◌∷◌, Exec, done, false, ◌>>=◌}
use libocoms.Framework.{Framework, Services, no_output, is_registered, framework_register}
use libocoms.Framework.Open.{framework_open}
use libocoms.Framework.Close.{framework_close}
use libocoms.Framework.Calls.{Serves}
use libocoms.Status.{Status, success}

pub data Call : Type 0 where
  register : (flags : ℕ) → Call
  open_it : (flags : ℕ) → Call
  close_it : Call

-- `opened n` for n + 1 users
pub data Phase : Type 0 where
  idle registered : Phase
  opened : ℕ → Phase

-- What a call makes of a phase.
unfoldable pub next : Call → Phase → Phase
next (register flags) idle = registered
next (register flags) registered = registered
next (register flags) (opened n) = opened n
next (open_it flags) idle = opened 0
next (open_it flags) registered = opened 0
next (open_it flags) (opened n) = opened (suc n)
next close_it idle = idle
next close_it registered = idle
next close_it (opened zero) = idle
next close_it (opened (suc n)) = opened n

unfoldable pub nexts : List Call → Phase → Phase
nexts [] p = p
nexts (c ∷ cs) p = nexts cs (next c p)

abbrev pub users : Phase → ℕ
users idle = 0
users registered = 0
users (opened n) = suc n

module _ {W : Type 0} where
  -- The fields of a framework in a phase; `base` are the flags that it was declared with.
  abbrev pub InPhase : (base : ℕ) → Phase → Framework W → Type 0
  InPhase base idle f =
      (f.framework_refcnt ≡ 0) × (f.framework_flags ≡ base) × (f.framework_output ≡ no_output)
  InPhase base registered f = (f.framework_refcnt ≡ 0) × (f.framework_flags ≡ base + 2)
  InPhase base (opened n) f = (f.framework_refcnt ≡ suc n) × (f.framework_flags ≡ base + 2)

abbrev pub AllSucceed : List Status → Type 0
AllSucceed [] = Unit
AllSucceed (s ∷ ss) = (s ≡ success) × AllSucceed ss

module _ {W : Type 0} (svc : Services W) where
  unfoldable pub perform : Call → Framework W → Exec (Status × Framework W)
  perform (register flags) f = done (framework_register svc flags f)
  perform (open_it flags) f = framework_open svc flags f
  perform close_it f = done (framework_close svc f)

  unfoldable pub performs : List Call → Framework W → Exec (List Status × Framework W)
  performs [] f = done ([], f)
  performs (c ∷ cs) f =
      perform c f >>= λ (ret, f'). performs cs f' >>= λ (rets, f''). done (ret ∷ rets, f'')

  module _ (law : Serves svc) (base : ℕ) (unregistered : is_registered base ≡ false) where
    -- A call that succeeds and leaves the framework in a phase.
    abbrev Succeeds : Phase → Status × Framework W → Type 0
    Succeeds p (ret, f) = (ret ≡ success) × InPhase base p f
