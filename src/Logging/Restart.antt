-- ===== src/Logging/Restart.antt =====
-- What a new store of internal/logging/json_store.go shows of the entries of an earlier one.
use redis_meter.Base.{
  ℕ, zero, suc, Bool, Option, none, some, List, [], ◌∷◌, ◌++◌, ◌≡◌, refl, take, drop, inl, inr,
  Bool-cases, Option-cases, select,
}
use redis_meter.Logging.Model.{Entry, QueryFilter, Files, JsonStore}
use redis_meter.Logging.Writing.{load_recent, newest_first, new_json_store, close}
use redis_meter.Base.Sort.{sort}
use redis_meter.Logging.Reading.{filter_entries, window, candidates, query}
use redis_meter.Logging.Queries.{Cuts, window_lem}
use redis_meter.Logging.Calls.{Call, run}
use redis_meter.Logging.Own.{AreOwn, load_file-IsOwn, run-AreOwn, close-AreOwn}

newest_first-AreOwn : (fs : Files) → AreOwn fs → AreOwn (newest_first fs)
unfolding newest_first
newest_first-AreOwn [] h = tt
newest_first-AreOwn ((d, ls) ∷ fs) h = added (newest_first fs) (newest_first-AreOwn fs h.1)
  where
    added : (gs : Files) → AreOwn gs → AreOwn (gs ++ ((d, ls) ∷ []))
    added [] g = (h.0, tt)
    added ((c, ms) ∷ gs) g = (g.0, added gs g.1)

load_recent-AreOwn :
    (opens : ℕ → Bool) (fs : Files) → AreOwn fs → load_recent opens fs 10000 [] ≡ []
unfolding load_recent
load_recent-AreOwn opens [] h = refl
load_recent-AreOwn opens ((d, ls) ∷ fs) h = elim (Bool-cases (opens d)) [
  | inl o ↦ rw (o, load_file-IsOwn ls h.0, load_recent) (load_recent-AreOwn opens fs h.1)
  | inr o ↦ rw (o, load_recent) (load_recent-AreOwn opens fs h.1)
]

take_none : (n : ℕ) (es : List Entry) → es ≡ [] → take n es ≡ []
take_none zero es h = refl
take_none (suc n) es h = rw h refl

drop_none : (n : ℕ) (es : List Entry) → es ≡ [] → drop n es ≡ []
drop_none zero es h = h
drop_none (suc n) es h = rw h refl

emptied : Cuts (λ es. es ≡ [])
emptied = record {
  nothing = refl;
  first = λ n es h. take_none n es h;
  last = λ n es h. drop_none n es h;
}

candidates-none :
    (opens : ℕ → Bool) (s : JsonStore) (f : Option QueryFilter)
    → s.cache ≡ []
    → candidates opens s f ≡ []
unfolding candidates
candidates-none opens s none h = h
candidates-none opens s (some f) h = elim (Option-cases f.since) [
  | inl e ↦ rw (e, h, candidates) refl
  | inr (t, e) ↦ rw (e, h, candidates) refl
]

query-none :
    (opens : ℕ → Bool) (s : JsonStore) (f : Option QueryFilter)
    → s.cache ≡ []
    → query opens s f ≡ []
unfolding query filter_entries select sort window
query-none opens s none h = rw (candidates-none opens s none h, query) refl
query-none opens s (some f) h =
    rw (candidates-none opens s (some f) h, query) (window_lem (λ es. es ≡ []) emptied f [] refl)

-- If the store wrote all lines of the files, then after any saves, entries taken by the background
-- writer and ticks of its clock, followed by Close, a new store on the files has an empty cache and
-- answers every query, with a filter or without, with no entries: nothing that was logged is seen after a
-- restart.
pub restart_shows_nothing :
    (opens again : ℕ → Bool) (encodes : Entry → Bool) (s : JsonStore) (cs : List Call)
    (f : Option QueryFilter)
    → AreOwn s.files
    → ((new_json_store again (close opens encodes (run opens encodes s cs)).files).cache ≡ [])
      × (query again (new_json_store again (close opens encodes (run opens encodes s cs)).files) f
          ≡ [])
unfolding new_json_store
restart_shows_nothing opens again encodes s cs f h =
    let after : JsonStore = close opens encodes (run opens encodes s cs) in
    let own =
      close-AreOwn opens encodes (run opens encodes s cs) (run-AreOwn opens encodes s cs h) in
    let empty =
      load_recent-AreOwn again (newest_first after.files) (newest_first-AreOwn after.files own) in
    (empty, query-none again (new_json_store again after.files) f empty)
