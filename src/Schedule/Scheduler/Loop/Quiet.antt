-- ===== src/Schedule/Scheduler/Loop/Quiet.antt =====
-- Steps of the owner goroutine that start no preheat, and forget none.
use codex_window_reset.Base.{
  ℕ, suc, String, Bool, true, false, List, [], ◌∷◌, some, ◌≡◌, refl, inl, inr, arith, if◌then◌else◌,
  Bool-cases, ◌∙◌, ap, sym, subst,
}
use codex_window_reset.Base.Assoc.{Assoc, lookup, insert, delete, lookup-insert, lookup-delete}
use codex_window_reset.Base.Text.{str_eq}
use codex_window_reset.Domain.Operation.{RuntimeState}
use codex_window_reset.Store.Disk.{Disk}
use codex_window_reset.Store.Runtime
use codex_window_reset.Store.Runtime.{OnDisk, update-OnDisk, load-cases}
use codex_window_reset.Schedule.Scheduler.{Scheduler, PendingTerminal, Request, is_planned}
use codex_window_reset.Schedule.Scheduler.Timers.Untouched.{Untouched}
use codex_window_reset.Schedule.Scheduler.Reconcile.Spent.{Spent}
use codex_window_reset.Schedule.Scheduler.Callbacks.{Step, persist_terminal}
use codex_window_reset.Schedule.Scheduler.Callbacks.Claims.{terminal_state-Spent}

-- How often an occurrence was preheated.
unfoldable pub preheats_of : String → List Request → ℕ
preheats_of id [] = 0
preheats_of id (Request.preheats k ∷ rs) =
    let n = preheats_of id rs in if str_eq k id then suc n else n
preheats_of id (Request.compensates k ∷ rs) = preheats_of id rs

-- No terminal write that is still to be made plans an occurrence.
abbrev pub NonePlanned : Assoc PendingTerminal → Type 0
NonePlanned m =
    (k : String) (p : PendingTerminal) → lookup k m ≡ some p → is_planned p.status ≡ false

pub record Quiet (id : String) (s s' : Scheduler) : Type 0 where
  pub none_planned : NonePlanned s.pending_terminal → NonePlanned s'.pending_terminal
  pub same_preheats : preheats_of id s'.requests ≡ preheats_of id s.requests
  pub stays_spent :
      NonePlanned s.pending_terminal → OnDisk (Spent id) s.disk → OnDisk (Spent id) s'.disk

pub quiet : (id : String) (s : Scheduler) → Quiet id s s
quiet id s = record { none_planned = λ h. h; same_preheats = refl; stays_spent = λ n h. h }

pub Quiet-trans :
    (id : String) (s s' s'' : Scheduler) → Quiet id s s' → Quiet id s' s'' → Quiet id s s''
Quiet-trans id s s' s'' h k = record {
  none_planned = λ n. k.none_planned (h.none_planned n);
  same_preheats = k.same_preheats ∙ h.same_preheats;
  stays_spent = λ n w. k.stays_spent (h.none_planned n) (h.stays_spent n w);
}

pub Quiet-if :
    (b : Bool) (id : String) (s : Scheduler) (t u : Step)
    → Quiet id s t.0
    → Quiet id s u.0
    → Quiet id s (if b then t else u).0
Quiet-if true id s t u h k = h
Quiet-if false id s t u h k = k

pub Untouched-Quiet : (id : String) (s s' : Scheduler) → Untouched s s' → Quiet id s s'
Untouched-Quiet id s s' u = record {
  none_planned = λ n. subst NonePlanned (sym u.pending) n;
  same_preheats = ap (preheats_of id) u.requests;
  stays_spent = λ n w. subst (OnDisk (Spent id)) (sym u.disk) w;
}

-- A new disk on which what is spent stays so.
pub disk-Quiet :
    (id : String) (s : Scheduler) (d : Disk RuntimeState)
    → (OnDisk (Spent id) s.disk → OnDisk (Spent id) d)
    → Quiet id s (record s { disk = d })
disk-Quiet id s d keep = record {
  none_planned = λ n. n;
  same_preheats = refl;
  stays_spent = λ n w. keep w;
}

pub update-Quiet :
    {A : Type 0} (f : RuntimeState → RuntimeState × A) (id : String) (s : Scheduler)
    → ((x : RuntimeState) → Spent id x → Spent id (f x).0)
    → Quiet id s (record s { disk = (Runtime.update_always f s.disk).0 })
update-Quiet f id s keep =
    disk-Quiet id s (Runtime.update_always f s.disk).0
      (λ w. update-OnDisk (Spent id) f s.disk w (λ x e h. keep x h))

pub load-Quiet :
    (id : String) (s : Scheduler) → Quiet id s (record s { disk = (Runtime.load s.disk).0 })
load-Quiet id s =
    disk-Quiet id s (Runtime.load s.disk).0
      (λ w. let (fs, c) = load-cases s.disk in elim c [ inl e ↦ rw e w | inr e ↦ rw e w ])

pub persist_terminal-Quiet :
    (id k : String) (p : PendingTerminal) (s : Scheduler)
    → is_planned p.status ≡ false
    → Quiet id s (persist_terminal k p s).0
unfolding persist_terminal
persist_terminal-Quiet id k p s n = update-Quiet _ id s (λ x h. terminal_state-Spent p k id x n h)

pub forget-NonePlanned :
    (k : String) (m : Assoc PendingTerminal) → NonePlanned m → NonePlanned (delete k m)
forget-NonePlanned k m h j p e = elim (Bool-cases (str_eq k j)) [
  | inl t ↦ ground (arith, e, lookup-delete k j m)
  | inr f ↦ h j p (sym (lookup-delete k j m ∙ rw f) ∙ e)
]

pub remember-NonePlanned :
    (k : String) (q : PendingTerminal) (m : Assoc PendingTerminal)
    → is_planned q.status ≡ false
    → NonePlanned m
    → NonePlanned (insert k q m)
remember-NonePlanned k q m n h j p e = elim (Bool-cases (str_eq k j)) [
  | inl t ↦ ground (arith, e, lookup-insert k j q m)
  | inr f ↦ h j p (sym (lookup-insert k j q m ∙ rw f) ∙ e)
]

pub pending-Quiet :
    (id : String) (s : Scheduler) (m : Assoc PendingTerminal)
    → (NonePlanned s.pending_terminal → NonePlanned m)
    → Quiet id s (record s { pending_terminal = m })
pending-Quiet id s m keep = record {
  none_planned = keep;
  same_preheats = refl;
  stays_spent = λ n w. w;
}
