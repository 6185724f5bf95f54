-- ===== src/Logging/Bounds.antt =====
-- The bound of the cache of internal/logging/json_store.go.
use redis_meter.Base.{
  ℕ, ◌-◌, ◌≤◌, Bool, true, false, List, [], ◌∷◌, ◌++◌, ◌≡◌, refl, ltb, leb, length, length-append,
  length-drop, length-take-le, arith, inl, inr, Bool-cases,
}
use redis_meter.Logging.Model.{Entry, Files, JsonStore, day, load_file}
use redis_meter.Logging.Writing.{
  last_of, cut_first, without_first, load_recent, newest_first, new_json_store, save_sync, save,
  flush_entries, flush, flush_if, take_from, take_entry,
}
use redis_meter.Logging.Calls.{Call, step, run}

length-last_of : (n : ℕ) (es : List Entry) → length (last_of n es) ≤ n
unfolding last_of
length-last_of n es = elim (Bool-cases (ltb n (length es))) [
  | inl e ↦ rw (e, last_of) (ground (arith, e, length-drop (length es - n) es))
  | inr e ↦ rw (e, last_of) (ground (arith, e))
]

without_first-length : (es : List Entry) → length (without_first es) ≡ length es - 1
without_first-length [] = omega arith
without_first-length (e ∷ es) = omega arith

length-cut_first :
    (n : ℕ) (es : List Entry) (e : Entry)
    → length es ≤ n
    → length (cut_first n (es ++ (e ∷ []))) ≤ n
length-cut_first n es e h = elim (Bool-cases (ltb n (length (es ++ (e ∷ []))))) [
  | inl g ↦ rw g (omega (arith, without_first-length (es ++ (e ∷ [])), length-append es (e ∷ [])))
  | inr g ↦ rw g (ground (arith, g))
]

length-load_recent :
    (opens : ℕ → Bool) (fs : Files) (max : ℕ) (cache : List Entry)
    → length cache ≤ max
    → length (load_recent opens fs max cache) ≤ max
unfolding load_recent
length-load_recent opens [] max cache h = h
length-load_recent opens ((d, ls) ∷ fs) max cache h = elim (Bool-cases (opens d)) [
  | inl o ↦ elim (Bool-cases (leb max (length (load_file ls ++ cache)))) [
    | inl g ↦ rw (o, g, load_recent) (length-take-le max (load_file ls ++ cache))
    | inr g ↦
        rw (o, g, load_recent)
          (length-load_recent opens fs max (load_file ls ++ cache) (ground (arith, g)))
  ]
  | inr o ↦ rw (o, load_recent) (length-load_recent opens fs max cache h)
]

-- The cache holds at most `n` entries, which is its limit.
record IsBounded (n : ℕ) (s : JsonStore) : Type 0 where
  limit : s.cache_max ≡ n
  fits : length s.cache ≤ n

module _ (opens : ℕ → Bool) (encodes : Entry → Bool) (n : ℕ) where
  save_sync-IsBounded :
      (s : JsonStore) (e : Entry) → IsBounded n s → IsBounded n (save_sync opens encodes s e).0
  unfolding save_sync
  save_sync-IsBounded s e h = elim (Bool-cases (opens (day e.timestamp))) [
    | inr o ↦ rw (o, save_sync) h
    | inl o ↦ elim (Bool-cases (encodes e)) [
      | inl g ↦
          rw (o, g, save_sync)
            (record { limit = h.limit; fits = rw h.limit (length-cut_first n s.cache e h.fits) })
      | inr g ↦ rw (o, g, save_sync) (record { limit = h.limit; fits = h.fits })
    ]
  ]

  save-IsBounded :
      (s : JsonStore) (e : Entry) → IsBounded n s → IsBounded n (save opens encodes s e).0
  unfolding save
  save-IsBounded s e h = elim (Bool-cases (ltb (length s.buffer) 1000)) [
    | inl o ↦ rw (o, save) (record { limit = h.limit; fits = h.fits })
    | inr o ↦ rw (o, save) (save_sync-IsBounded s e h)
  ]

  flush_entries-IsBounded :
      (s : JsonStore) (es : List Entry)
      → IsBounded n s
      → IsBounded n (flush_entries opens encodes s es)
  unfolding flush_entries
  flush_entries-IsBounded s [] h = h
  flush_entries-IsBounded s (e ∷ es) h = record {
    limit = h.limit;
    fits = rw h.limit (length-last_of n (s.cache ++ (e ∷ es)));
  }

  flush-IsBounded : (s : JsonStore) → IsBounded n s → IsBounded n (flush opens encodes s)
  unfolding flush
  flush-IsBounded s h = flush_entries-IsBounded s s.pending h

  flush_if-IsBounded :
      (now : Bool) (s : JsonStore) → IsBounded n s → IsBounded n (flush_if opens encodes now s)
  flush_if-IsBounded true s h = flush-IsBounded s h
  flush_if-IsBounded false s h = h

  take_from-IsBounded :
      (es : List Entry) (s : JsonStore) → IsBounded n s → IsBounded n (take_from opens encodes es s)
  unfolding take_from
  take_from-IsBounded [] s h = h
  take_from-IsBounded (e ∷ es) s h =
      flush_if-IsBounded (leb 100 (length (s.pending ++ (e ∷ []))))
        (record s { buffer = es; pending = s.pending ++ (e ∷ []) })
        (record { limit = h.limit; fits = h.fits })

  step-IsBounded : (s : JsonStore) (c : Call) → IsBounded n s → IsBounded n (step opens encodes s c)
  unfolding step take_entry
  step-IsBounded s (Call.saves e) h = save-IsBounded s e h
  step-IsBounded s Call.takes h = take_from-IsBounded s.buffer s h
  step-IsBounded s Call.ticks h = flush-IsBounded s h

  run-IsBounded :
      (s : JsonStore) (cs : List Call) → IsBounded n s → IsBounded n (run opens encodes s cs)
  unfolding run
  run-IsBounded s [] h = h
  run-IsBounded s (c ∷ cs) h = run-IsBounded (step opens encodes s c) cs (step-IsBounded s c h)

-- From any files and after any saves, entries taken by the background writer and ticks of its
-- clock, whichever files can be opened and entries encoded, the cache holds at most 10000 entries.
pub cache_bounded :
    (opens : ℕ → Bool) (encodes : Entry → Bool) (files : Files) (cs : List Call)
    → length (run opens encodes (new_json_store opens files) cs).cache ≤ 10000
unfolding new_json_store
cache_bounded opens encodes files cs =
    (run-IsBounded opens encodes 10000 (new_json_store opens files) cs (record {
      limit = refl;
      fits = length-load_recent opens (newest_first files) 10000 [] (omega arith);
    })).fits
