-- ===== src/Logging/Complete.antt =====
-- No entry of internal/logging/json_store.go is lost or made up between Save and the files.
use redis_meter.Base.{
  ℕ, ◌+◌, Bool, true, false, List, [], ◌∷◌, ◌++◌, ◌≡◌, refl, ap, ◌∙◌, ltb, leb, if◌then◌else◌,
  length, select, arith, inl, inr, Bool-cases,
}
use redis_meter.Logging.Model.{Entry, Line, Files, JsonStore, day, append_to}
use redis_meter.Logging.Writing.{
  lines_of, save_sync, save, write_all, flush_entries, flush, flush_if, take_from, take_entry,
  close,
}
use redis_meter.Logging.Calls.{Call, step, run, recorded}

-- The entries that the lines hold, also those that do not read back.
unfoldable pub entries_of : List Line → List Entry
entries_of [] = []
entries_of (Line.marshalled e ∷ ls) = e ∷ entries_of ls
entries_of (Line.numeric e ∷ ls) = e ∷ entries_of ls
entries_of (Line.foreign ∷ ls) = entries_of ls

unfoldable pub logged : Files → List Entry
logged [] = []
logged ((d, ls) ∷ fs) = entries_of ls ++ logged fs

-- How many entries pass a test.
unfoldable pub tally : (Entry → Bool) → List Entry → ℕ
tally t es = length (select t es)

module _ (t : Entry → Bool) where
  pub tally-cons :
      (e : Entry) (es : List Entry) → tally t (e ∷ es) ≡ (if t e then 1 else 0) + tally t es
  unfolding tally select
  tally-cons e es = ground arith

  pub tally-append : (xs ys : List Entry) → tally t (xs ++ ys) ≡ tally t xs + tally t ys
  unfolding tally select
  tally-append [] ys = omega arith
  tally-append (x ∷ xs) ys = ground (arith, tally-append xs ys)

  tally-entries_of :
      (ls ms : List Line)
      → tally t (entries_of (ls ++ ms)) ≡ tally t (entries_of ls) + tally t (entries_of ms)
  unfolding entries_of
  tally-entries_of [] ms = omega (arith, tally-append [] (entries_of ms))
  tally-entries_of (Line.marshalled e ∷ ls) ms = omega (
    arith,
    tally-append (e ∷ []) (entries_of (ls ++ ms)),
    tally-append (e ∷ []) (entries_of ls),
    tally-entries_of ls ms,
  )
  tally-entries_of (Line.numeric e ∷ ls) ms = omega (
    arith,
    tally-append (e ∷ []) (entries_of (ls ++ ms)),
    tally-append (e ∷ []) (entries_of ls),
    tally-entries_of ls ms,
  )
  tally-entries_of (Line.foreign ∷ ls) ms = tally-entries_of ls ms

  tally-append_to :
      (fs : Files) (d : ℕ) (new : List Line)
      → tally t (logged (append_to fs d new)) ≡ tally t (entries_of new) + tally t (logged fs)
  unfolding append_to logged
  tally-append_to [] d new = omega (arith, tally-append (entries_of new) [])
  tally-append_to ((c, ls) ∷ fs) d new = ground (
    arith,
    tally-append (entries_of (ls ++ new)) (logged fs),
    tally-entries_of ls new,
    tally-append (entries_of ls) (logged fs),
    tally-append (entries_of ls) (logged (append_to fs d new)),
    tally-append (entries_of new) (entries_of ls ++ logged fs),
    tally-append_to fs d new,
  )

-- All that the store holds: in the channel, at the writer, in the files.
unfoldable pub everything : JsonStore → List Entry
everything s = s.buffer ++ (s.pending ++ logged s.files)

abbrev all_open : ℕ → Bool
all_open d = true

-- All files can be opened, and Encode writes the entries that pass the test.
module _ (t encodes : Entry → Bool) (w : (e : Entry) → t e ≡ true → encodes e ≡ true) where
  tally_nil : tally t [] ≡ 0
  unfolding tally select
  tally_nil = refl

  tally-everything :
      (s : JsonStore)
      → tally t (everything s) ≡ tally t s.buffer + (tally t s.pending + tally t (logged s.files))
  unfolding everything
  tally-everything s = omega (
    arith,
    tally-append t s.buffer (s.pending ++ logged s.files),
    tally-append t s.pending (logged s.files),
  )

  tally-lines_of :
      (e : Entry) → tally t (entries_of (lines_of all_open encodes e)) ≡ tally t (e ∷ [])
  unfolding entries_of tally select
  tally-lines_of e = elim (Bool-cases (encodes e)) [
    | inl h ↦ rw h refl
    | inr h ↦ elim (Bool-cases (t e)) [
      | inl p ↦ absurd (ground (arith, h, w e p))
      | inr p ↦ rw (h, p) refl
    ]
  ]

  tally-write_all :
      (fs : Files) (es : List Entry)
      → tally t (logged (write_all all_open encodes fs es)) ≡ tally t es + tally t (logged fs)
  unfolding write_all
  tally-write_all fs [] = omega (arith, tally-append t [] (logged fs))
  tally-write_all fs (e ∷ es) = omega (
    arith,
    tally-write_all (append_to fs (day e.timestamp) (lines_of all_open encodes e)) es,
    tally-append_to t fs (day e.timestamp) (lines_of all_open encodes e),
    tally-lines_of e,
    tally-append t (e ∷ []) es,
  )

  tally-flush_entries :
      (s : JsonStore) (es : List Entry)
      → tally t (logged (flush_entries all_open encodes s es).files)
        ≡ tally t es + tally t (logged s.files)
  unfolding flush_entries
  tally-flush_entries s [] = omega (arith, tally_nil)
  tally-flush_entries s (e ∷ es) = tally-write_all s.files (e ∷ es)

  everything-flush_entries :
      (s : JsonStore) (es : List Entry)
      → s.pending ≡ es
      → tally t (everything (flush_entries all_open encodes s es)) ≡ tally t (everything s)
  unfolding flush_entries
  everything-flush_entries s [] h = refl
  everything-flush_entries s (e ∷ es) h = omega (
    arith,
    tally-everything s,
    tally-everything (flush_entries all_open encodes s (e ∷ es)),
    tally_nil,
    ap (tally t) h,
    tally-write_all s.files (e ∷ es),
  )

  tally-flush :
      (s : JsonStore) → tally t (everything (flush all_open encodes s)) ≡ tally t (everything s)
  unfolding flush
  tally-flush s = everything-flush_entries s s.pending refl

  tally-flush_if :
      (now : Bool) (s : JsonStore)
      → tally t (everything (flush_if all_open encodes now s)) ≡ tally t (everything s)
  tally-flush_if true s = tally-flush s
  tally-flush_if false s = refl

  tally-take_from :
      (es : List Entry) (s : JsonStore)
      → s.buffer ≡ es
      → tally t (everything (take_from all_open encodes es s)) ≡ tally t (everything s)
  unfolding take_from
  tally-take_from [] s h = refl
  tally-take_from (e ∷ es) s h =
      let after : JsonStore = record s { buffer = es; pending = s.pending ++ (e ∷ []) } in
      omega (
        arith,
        tally-flush_if (leb 100 (length (s.pending ++ (e ∷ [])))) after,
        tally-everything after,
        tally-everything s,
        ap (tally t) h,
        tally-append t s.pending (e ∷ []),
        tally-append t (e ∷ []) es,
      )

  tally-take_entry :
      (s : JsonStore)
      → tally t (everything (take_entry all_open encodes s)) ≡ tally t (everything s)
  unfolding take_entry
  tally-take_entry s = tally-take_from s.buffer s refl

  -- What save_sync leaves of the parts of the store.
  save_sync-parts :
      (s : JsonStore) (e : Entry)
      → ((save_sync all_open encodes s e).0.buffer ≡ s.buffer)
        × ((save_sync all_open encodes s e).0.pending ≡ s.pending)
        × ((save_sync all_open encodes s e).0.files
            ≡ append_to s.files (day e.timestamp) (lines_of all_open encodes e))
  unfolding save_sync
  save_sync-parts s e = elim (Bool-cases (encodes e)) [
    | inl h ↦ rw (h, save_sync) (refl, refl, refl)
    | inr h ↦ rw (h, save_sync) (refl, refl, refl)
  ]

  tally-save_sync :
      (s : JsonStore) (e : Entry)
      → tally t (everything (save_sync all_open encodes s e).0)
        ≡ tally t (e ∷ []) + tally t (everything s)
  tally-save_sync s e =
      let (b, p, f) = save_sync-parts s e in
      omega (
        arith,
        tally-everything (save_sync all_open encodes s e).0,
        tally-everything s,
        ap (tally t) b,
        ap (tally t) p,
        ap (λ fs. tally t (logged fs)) f,
        tally-append_to t s.files (day e.timestamp) (lines_of all_open encodes e),
        tally-lines_of e,
      )

  tally-save :
      (s : JsonStore) (e : Entry)
      → tally t (everything (save all_open encodes s e).0)
        ≡ tally t (e ∷ []) + tally t (everything s)
  unfolding save
  tally-save s e =
      let queued : JsonStore = record s { buffer = s.buffer ++ (e ∷ []) } in
      elim (Bool-cases (ltb (length s.buffer) 1000)) [
        | inl h ↦
            rw (h, save)
              (omega (
                arith,
                tally-everything queued,
                tally-everything s,
                tally-append t s.buffer (e ∷ []),
              ))
        | inr h ↦ rw (h, save) (tally-save_sync s e)
      ]

  tally-step :
      (s : JsonStore) (c : Call)
      → tally t (everything (step all_open encodes s c))
        ≡ tally t (recorded (c ∷ [])) + tally t (everything s)
  unfolding step recorded
  tally-step s (Call.saves e) = tally-save s e
  tally-step s Call.takes = omega (arith, tally_nil, tally-take_entry s)
  tally-step s Call.ticks = omega (arith, tally_nil, tally-flush s)

  tally-recorded :
      (c : Call) (cs : List Call)
      → tally t (recorded (c ∷ cs)) ≡ tally t (recorded (c ∷ [])) + tally t (recorded cs)
  unfolding recorded
  tally-recorded (Call.saves e) cs = tally-append t (e ∷ []) (recorded cs)
  tally-recorded Call.takes cs = omega (arith, tally_nil)
  tally-recorded Call.ticks cs = omega (arith, tally_nil)

  tally-run :
      (s : JsonStore) (cs : List Call)
      → tally t (everything (run all_open encodes s cs))
        ≡ tally t (recorded cs) + tally t (everything s)
  unfolding run recorded
  tally-run s [] = omega (arith, tally_nil)
  tally-run s (c ∷ cs) =
      omega (arith, tally-run (step all_open encodes s c) cs, tally-step s c, tally-recorded c cs)

  tally-close :
      (s : JsonStore) → tally t (logged (close all_open encodes s).files) ≡ tally t (everything s)
  unfolding close flush
  tally-close s = omega (
    arith,
    tally-everything s,
    tally-append t s.pending s.buffer,
    tally-flush_entries (record s { buffer = []; pending = s.pending ++ s.buffer })
        (s.pending ++ s.buffer),
  )

-- If all files can be opened and Encode writes each entry that passes a test, then after any saves,
-- entries taken by the background writer and ticks of its clock, followed by Close, the lines of the
-- files hold as many entries that pass the test as were in the channel, at the writer and in the files
-- before plus those that were saved: no such entry is lost, doubled or made up.
pub close_complete :
    (t encodes : Entry → Bool) (s : JsonStore) (cs : List Call)
    → ((e : Entry) → t e ≡ true → encodes e ≡ true)
    → tally t (logged (close all_open encodes (run all_open encodes s cs)).files)
      ≡ tally t (recorded cs) + tally t (everything s)
close_complete t encodes s cs w =
    tally-close t encodes w (run all_open encodes s cs) ∙ tally-run t encodes w s cs
