-- ===== src/Logging/Own.antt =====
-- The lines that the store of internal/logging/json_store.go writes do not read back.
use redis_meter.Base.{
  ℕ, Bool, true, false, List, [], ◌∷◌, ◌++◌, ◌≡◌, refl, ap, ltb, leb, ◌==◌, if◌then◌else◌, length,
  select, All, arith, inl, inr, Bool-cases,
}
use redis_meter.Logging.Model.{Entry, Line, Files, JsonStore, day, append_to, load_file}
use redis_meter.Logging.Writing.{
  lines_of, save_sync, save, write_all, flush_entries, flush, take_from, take_entry, close,
}
use redis_meter.Logging.Deleting.{kept, old_count, truncate_file, delete_file, delete_files, delete}
use redis_meter.Logging.Calls.{Call, step, run}

-- The store wrote the line.
abbrev pub IsOwn : Line → Type 0
IsOwn (Line.marshalled e) = Unit
IsOwn (Line.numeric e) = ⊥
IsOwn Line.foreign = ⊥

-- The store wrote all lines of the files.
abbrev pub AreOwn : Files → Type 0
AreOwn [] = Unit
AreOwn ((d, ls) ∷ fs) = All IsOwn ls × AreOwn fs

pub load_file-IsOwn : (ls : List Line) → All IsOwn ls → load_file ls ≡ []
unfolding load_file
load_file-IsOwn [] h = refl
load_file-IsOwn (Line.marshalled e ∷ ls) h = load_file-IsOwn ls h.1
load_file-IsOwn (Line.numeric e ∷ ls) h = absurd h.0
load_file-IsOwn (Line.foreign ∷ ls) h = absurd h.0

append-IsOwn : (ls ms : List Line) → All IsOwn ls → All IsOwn ms → All IsOwn (ls ++ ms)
append-IsOwn [] ms h g = g
append-IsOwn (l ∷ ls) ms h g = (h.0, append-IsOwn ls ms h.1 g)

append_to-AreOwn :
    (fs : Files) (d : ℕ) (new : List Line) → AreOwn fs → All IsOwn new → AreOwn (append_to fs d new)
unfolding append_to
append_to-AreOwn [] d new h g = (g, tt)
append_to-AreOwn ((c, ls) ∷ fs) d new h g = elim (Bool-cases (c == d)) [
  | inl e ↦ rw e (append-IsOwn ls new h.0 g, h.1)
  | inr e ↦ elim (Bool-cases (ltb d c)) [
    | inl f ↦ rw (e, f) (g, (h.0, h.1))
    | inr f ↦ rw (e, f) (h.0, append_to-AreOwn fs d new h.1 g)
  ]
]

module _ (opens : ℕ → Bool) (encodes : Entry → Bool) where
  lines_of-IsOwn : (e : Entry) → All IsOwn (lines_of opens encodes e)
  lines_of-IsOwn e = elim (Bool-cases (encodes e)) [ inl h ↦ rw h (tt, tt) | inr h ↦ rw h tt ]

  write_all-AreOwn :
      (fs : Files) (es : List Entry) → AreOwn fs → AreOwn (write_all opens encodes fs es)
  unfolding write_all
  write_all-AreOwn fs [] h = h
  write_all-AreOwn fs (e ∷ es) h = elim (Bool-cases (opens (day e.timestamp))) [
    | inl o ↦
        rw (o, write_all)
          (write_all-AreOwn (append_to fs (day e.timestamp) (lines_of opens encodes e)) es
            (append_to-AreOwn fs (day e.timestamp) _ h (lines_of-IsOwn e)))
    | inr o ↦ rw (o, write_all) (write_all-AreOwn fs es h)
  ]

  flush_entries-AreOwn :
      (s : JsonStore) (es : List Entry)
      → AreOwn s.files
      → AreOwn (flush_entries opens encodes s es).files
  unfolding flush_entries
  flush_entries-AreOwn s [] h = h
  flush_entries-AreOwn s (e ∷ es) h = write_all-AreOwn s.files (e ∷ es) h

  flush-AreOwn : (s : JsonStore) → AreOwn s.files → AreOwn (flush opens encodes s).files
  unfolding flush
  flush-AreOwn s h = flush_entries-AreOwn s s.pending h

  take_from-AreOwn :
      (es : List Entry) (s : JsonStore)
      → AreOwn s.files
      → AreOwn (take_from opens encodes es s).files
  unfolding take_from
  take_from-AreOwn [] s h = h
  take_from-AreOwn (e ∷ es) s h = elim (Bool-cases (leb 100 (length (s.pending ++ (e ∷ []))))) [
    | inl g ↦ rw (g, take_from) (flush-AreOwn _ h)
    | inr g ↦ rw (g, take_from) h
  ]

  save_sync-AreOwn :
      (s : JsonStore) (e : Entry) → AreOwn s.files → AreOwn (save_sync opens encodes s e).0.files
  unfolding save_sync
  save_sync-AreOwn s e h =
      let more = append_to-AreOwn s.files (day e.timestamp) _ h (lines_of-IsOwn e) in
      elim (Bool-cases (opens (day e.timestamp))) [
        | inr o ↦ rw (o, save_sync) h
        | inl o ↦ elim (Bool-cases (encodes e)) [
          | inl g ↦ rw (o, g, save_sync) (rw g at more)
          | inr g ↦ rw (o, g, save_sync) (rw g at more)
        ]
      ]

  save-AreOwn :
      (s : JsonStore) (e : Entry) → AreOwn s.files → AreOwn (save opens encodes s e).0.files
  unfolding save
  save-AreOwn s e h = elim (Bool-cases (ltb (length s.buffer) 1000)) [
    | inl o ↦ rw (o, save) h
    | inr o ↦ rw (o, save) (save_sync-AreOwn s e h)
  ]

  step-AreOwn : (s : JsonStore) (c : Call) → AreOwn s.files → AreOwn (step opens encodes s c).files
  unfolding step take_entry
  step-AreOwn s (Call.saves e) h = save-AreOwn s e h
  step-AreOwn s Call.takes h = take_from-AreOwn s.buffer s h
  step-AreOwn s Call.ticks h = flush-AreOwn s h

  pub run-AreOwn :
      (s : JsonStore) (cs : List Call) → AreOwn s.files → AreOwn (run opens encodes s cs).files
  unfolding run
  run-AreOwn s [] h = h
  run-AreOwn s (c ∷ cs) h = run-AreOwn (step opens encodes s c) cs (step-AreOwn s c h)

  pub close-AreOwn : (s : JsonStore) → AreOwn s.files → AreOwn (close opens encodes s).files
  unfolding close
  close-AreOwn s h = flush-AreOwn (record s { buffer = []; pending = s.pending ++ s.buffer }) h

-- The files of the dates after a day.
unfoldable pub later_than : ℕ → Files → Files
later_than d fs = select (λ f. ltb d f.0) fs

abbrev all : ℕ → Bool
all d = true

module _ (encodes : Entry → Bool) where
  delete_file-own :
      (d : ℕ) (ls : List Line) (before : ℕ)
      → All IsOwn ls
      → delete_file all all encodes d ls before
        ≡ (if ltb (day before) d then (d, ls) ∷ [] else [], 0)
  unfolding delete_file truncate_file kept old_count select
  delete_file-own d ls before h = elim (Bool-cases (ltb d (day before))) [
    | inl e ↦
        let late : ltb (day before) d ≡ false = ground (arith, e) in
        rw (e, late, load_file-IsOwn ls h, delete_file) refl
    | inr e ↦ elim (Bool-cases (d == day before)) [
      | inl f ↦
          let late : ltb (day before) d ≡ false = ground (arith, f) in
          rw (e, f, late, load_file-IsOwn ls h, delete_file, truncate_file) refl
      | inr f ↦
          let late : ltb (day before) d ≡ true = ground (arith, e, f) in
          rw (e, f, late, delete_file) refl
    ]
  ]

  delete_files-own :
      (fs : Files) (before : ℕ)
      → AreOwn fs
      → delete_files all all encodes fs before ≡ (later_than (day before) fs, 0)
  unfolding delete_files later_than select
  delete_files-own [] before h = refl
  delete_files-own ((d, ls) ∷ fs) before h =
      rw (delete_file-own d ls before h.0, delete_files-own fs before h.1, delete_files)
        (elim (Bool-cases (ltb (day before) d)) [ inl e ↦ rw e refl | inr e ↦ rw e refl ])

-- If the store wrote all lines of the files and all files can be read, removed and written, Delete keeps
-- of the cache exactly the entries not before the time, removes every file up to the day of the time
-- and leaves the later ones, and answers the number of entries it removed from the cache alone. So the
-- file of that day goes with the entries that are not old, since no line of it reads back.
pub delete_own_effect :
    (encodes : Entry → Bool) (s : JsonStore) (before : ℕ)
    → AreOwn s.files
    → ((delete (λ d. true) (λ d. true) encodes s before).0.files ≡ later_than (day before) s.files)
      × ((delete (λ d. true) (λ d. true) encodes s before).0.cache ≡ kept before s.cache)
      × ((delete (λ d. true) (λ d. true) encodes s before).1 ≡ old_count before s.cache)
unfolding delete
delete_own_effect encodes s before h =
    let both = delete_files-own encodes s.files before h in
    (ap (λ r. r.0) both, refl, omega (arith, ap (λ (r : Files × ℕ). r.1) both))
