-- ===== src/TaskStore/Drafts.antt =====
-- `Get`, a change and `Save` of internal/task/store.go taken together: what the store shows and
-- what memory holds once a changed copy is saved.
use redis_meter.Base.{ℕ, ◌+◌, ◌<◌, ◌≡◌, refl, ap, ◌∙◌, some, String, str_eq, if◌then◌else◌, arith}
use redis_meter.Task.Model.{Task}
use redis_meter.TaskStore.Model.{Store, SaveOutcome, write, alloc, update, save, view}
use redis_meter.TaskStore.View.{
  IsWellFormed, stamped, save-view, save-object, fresh_unseen, write_self, write_ne,
}
use redis_meter.TaskStore.History.{draft, draft-IsWellFormed, save-IsWellFormed}

abbrev pub saved_draft : Store → Task → Task → ℕ → Store
saved_draft s o t now = (save (draft s o t) s.next SaveOutcome.saved now).0

module _ (s : Store) (o t : Task) (now : ℕ) where
  draft-object : (draft s o t).object s.next ≡ t
  unfolding update
  draft-object = write_self (alloc s o).0.object s.next t

  draft-old : (q : ℕ) → q < s.next → (draft s o t).object q ≡ s.object q
  unfolding update alloc
  draft-old q h =
      write_ne (write s.object s.next o) s.next q t (λ e. omega arith)
      ∙ write_ne s.object s.next q o (λ e. omega arith)

  pub saved_draft-next : (saved_draft s o t now).next ≡ s.next + 1
  unfolding save update alloc
  saved_draft-next = refl

  pub saved_draft-old : (q : ℕ) → q < s.next → (saved_draft s o t now).object q ≡ s.object q
  saved_draft-old q h =
      ap (λ (g : ℕ → Task). g q) (save-object (draft s o t) s.next now SaveOutcome.saved)
      ∙ write_ne (draft s o t).object s.next q _ (λ e. omega arith)
      ∙ draft-old q h

  pub saved_draft-IsWellFormed : IsWellFormed s → IsWellFormed (saved_draft s o t now)
  saved_draft-IsWellFormed w =
      save-IsWellFormed (draft s o t) s.next now (unfold update alloc in omega arith)
        (draft-IsWellFormed s o t w)

  -- The store shows the changed task under its ID, and every other task as before.
  pub saved_draft-view :
      (id j : String)
      → IsWellFormed s
      → t.id ≡ id
      → view (saved_draft s o t now) j ≡ (if str_eq id j then some (stamped t now) else view s j)
  saved_draft-view id j w e =
      save-view (draft s o t) s.next now j (draft-IsWellFormed s o t w)
      ∙ rw (draft-object, fresh_unseen s o t j w)
          (ap (λ x. if str_eq x j then some (stamped t now) else view s j) e)
