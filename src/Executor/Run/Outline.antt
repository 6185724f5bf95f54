-- ===== src/Executor/Run/Outline.antt =====
-- The types and statuses of a task's steps, and how the writes of a run change them.
use redis_meter.Base.{
  ℕ, zero, suc, ◌<◌, ◌≡◌, refl, ap, sym, ◌≢◌, true, some, none, Option, List, [], ◌∷◌, get_elem?,
  take, set, length, All, arith, str_eq, eq_iff, if◌then◌else◌,
}
use mathlib.Core.Path.{subst}
use redis_meter.Base.{str_eq_of_ne}
use redis_meter.Task.Model.{StepType, StepStatus, Step}
use redis_meter.Task.Steps.{modify_first}
use redis_meter.Executor.Run.{is_done}

abbrev pub Line : Type 0
Line = StepType × StepStatus

abbrev pub line : Step → Line
line s = (s.type, s.status)

abbrev pub outline : List Step → List Line
outline [] = []
outline (s ∷ ss) = line s ∷ outline ss

abbrev pub HasType : StepType → Line → Type 0
HasType k l = l.0 ≢ k

-- No two steps have one type.
abbrev pub HasDistinctTypes : List Line → Type 0
HasDistinctTypes [] = Unit
HasDistinctTypes (l ∷ ls) = All (HasType l.0) ls × HasDistinctTypes ls

-- The first step of the type gets the status.
unfoldable pub mark : StepType → StepStatus → List Line → List Line
mark k st [] = []
mark k st (l ∷ ls) = let rest = mark k st ls in if str_eq l.0 k then (l.0, st) ∷ ls else l ∷ rest

pub outline-modify_first :
    (k : StepType) (st : StepStatus) (f : Step → Step) (ss : List Step)
    → ((s : Step) → line (f s) ≡ (s.type, st))
    → outline (modify_first k f ss) ≡ mark k st (outline ss)
unfolding modify_first mark
outline-modify_first k st f [] h = refl
outline-modify_first k st f (s ∷ ss) h = ground (arith, h s, outline-modify_first k st f ss h)

-- A write that changes neither the type nor the status.
pub outline-modify_first_same :
    (k : StepType) (f : Step → Step) (ss : List Step)
    → ((s : Step) → line (f s) ≡ line s)
    → outline (modify_first k f ss) ≡ outline ss
unfolding modify_first
outline-modify_first_same k f [] h = refl
outline-modify_first_same k f (s ∷ ss) h = ground (arith, h s, outline-modify_first_same k f ss h)

pub mark-mark :
    (k : StepType) (a b : StepStatus) (ls : List Line) → mark k b (mark k a ls) ≡ mark k b ls
unfolding mark
mark-mark k a b [] = refl
mark-mark k a b (l ∷ ls) = ground (arith, mark-mark k a b ls)

abbrev pub IsDoneLine : Line → Type 0
IsDoneLine l = is_done l.1 ≡ true

type_at :
    (t k : StepType) (x : StepStatus) (ls : List Line) (i : ℕ)
    → All (HasType t) ls
    → get_elem? ls i ≡ some (k, x)
    → k ≢ t
type_at t k x [] i a h = cc
type_at t k x (l ∷ ls) zero a h = λ e. a.0 (cc)
type_at t k x (l ∷ ls) (suc i) a h = type_at t k x ls i a.1 h

HasType-set :
    (t k : StepType) (st : StepStatus) (ls : List Line) (i : ℕ)
    → All (HasType t) ls
    → k ≢ t
    → All (HasType t) (set ls i (k, st))
HasType-set t k st [] i a h = tt
HasType-set t k st (l ∷ ls) zero a h = (h, a.1)
HasType-set t k st (l ∷ ls) (suc i) a h = (a.0, HasType-set t k st ls i a.1 h)

-- Marking the step at a place, by its type, sets that place alone.
pub mark-set :
    (k : StepType) (x st : StepStatus) (ls : List Line) (i : ℕ)
    → HasDistinctTypes ls
    → get_elem? ls i ≡ some (k, x)
    → mark k st ls ≡ set ls i (k, st)
unfolding mark
mark-set k x st [] i d h = cc
mark-set k x st (l ∷ ls) zero d h = ground (arith, eq_iff l.0 k)
mark-set k x st (l ∷ ls) (suc i) d h =
    rw (str_eq_of_ne l.0 k (λ e. type_at l.0 k x ls i d.0 h (sym e)))
      (ap (◌∷◌ l) (mark-set k x st ls i d.1 h))

abbrev type_or : Option Line → StepType → StepType
type_or none k = k
type_or (some l) k = l.0

pub HasDistinctTypes-set :
    (k : StepType) (x st : StepStatus) (ls : List Line) (i : ℕ)
    → HasDistinctTypes ls
    → get_elem? ls i ≡ some (k, x)
    → HasDistinctTypes (set ls i (k, st))
HasDistinctTypes-set k x st [] i d h = d
HasDistinctTypes-set k x st (l ∷ ls) zero d h =
    let e : l.0 ≡ k = ap (λ (m : Option Line). type_or m k) h in
    (subst (λ t. All (HasType t) ls) e d.0, d.1)
HasDistinctTypes-set k x st (l ∷ ls) (suc i) d h = (
  HasType-set l.0 k st ls i d.0 (type_at l.0 k x ls i d.0 h),
  HasDistinctTypes-set k x st ls i d.1 h,
)

-- One more step is done.
pub done-set :
    (l : Line) (ls : List Line) (i : ℕ)
    → i < length ls
    → All IsDoneLine (take i ls)
    → IsDoneLine l
    → All IsDoneLine (take (suc i) (set ls i l))
done-set l [] i b a h = absurd (omega arith)
done-set l (m ∷ ls) zero b a h = (h, tt)
done-set l (m ∷ ls) (suc i) b a h = (a.0, done-set l ls i (omega arith) a.1 h)

pub outline-set :
    (ss : List Step) (i : ℕ) (s : Step) → outline (set ss i s) ≡ set (outline ss) i (line s)
outline-set [] i s = refl
outline-set (x ∷ ss) zero s = refl
outline-set (x ∷ ss) (suc i) s = ap (◌∷◌ (line x)) (outline-set ss i s)
