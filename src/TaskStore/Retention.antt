-- ===== src/TaskStore/Retention.antt =====
-- What `Archive` of internal/task/store.go takes away, and what it keeps.
use redis_meter.Base.{
  ℕ, ◌+◌, ◌≡◌, refl, ap, ◌∙◌, Bool, true, false, ◌&&◌, Option, none, some, [], ◌∷◌, String, str_eq,
  ltb, if◌then◌else◌, eq_iff, arith,
}
use redis_meter.Base.Dict.{Dict, get, get-remove, HasDistinctKeys}
use redis_meter.Task.Model.{Task}
use redis_meter.Task.Status.{is_terminal}
use redis_meter.TaskStore.Model.{Store, view}
use redis_meter.TaskStore.View.{pointer_of_view}
use redis_meter.TaskStore.Archive.{is_due, move_out, archive_from, archive}

module _ (rename_ok : String → Bool) (mod_time : String → ℕ) (cutoff : ℕ) where
  -- The task under this key leaves the cache.
  abbrev leaves : (ℕ → Task) → Option ℕ → String → Bool
  leaves object none j = false
  leaves object (some p) j = is_due cutoff (object p) && rename_ok j

  unfoldable pub move_if : Bool → Store → String → Store
  move_if b s id = if b then move_out s id mod_time else s

  move_if-get :
      (b : Bool) (s : Store) (id j : String)
      → (get (move_if b s id).cache j ≡ (if b && str_eq id j then none else get s.cache j))
        × (get (move_if b s id).disk j ≡ (if b && str_eq id j then none else get s.disk j))
        × ((move_if b s id).object ≡ s.object)
  unfolding move_if move_out
  move_if-get true s id j = (get-remove s.cache id j, get-remove s.disk id j, refl)
  move_if-get false s id j = (refl, refl, refl)

  archive_from-get :
      (rest : Dict ℕ) (s : Store) (n : ℕ) (j : String)
      → HasDistinctKeys rest
      → let u = (archive_from rename_ok mod_time cutoff s n rest).0 in
        let gone = leaves s.object (get rest j) j in
        (get u.cache j ≡ (if gone then none else get s.cache j))
        × (get u.disk j ≡ (if gone then none else get s.disk j))
        × (u.object ≡ s.object)
  unfolding archive_from get move_if
  archive_from-get [] s n j d = (refl, refl, refl)
  archive_from-get ((id, p) ∷ rest) s n j d =
      let b = is_due cutoff (s.object p) && rename_ok id in
      let (c, f, o) = move_if-get b s id j in
      let (ih, jh, oh) = archive_from-get rest (move_if b s id) (if b then n + 1 else n) j d.1 in
      (
        (rw (o, c) at ih) ∙ ground (arith, eq_iff id j, d.0),
        (rw (o, f) at jh) ∙ ground (arith, eq_iff id j, d.0),
        oh ∙ o,
      )

  -- Of a cache with distinct keys `Archive` takes out exactly the tasks that are terminal, were last updated before the cutoff,
  -- and whose file can be moved; a task that is not such stays as it was, with its file.
  pub archive_effect :
      (s : Store) (j : String) (t : Task)
      → HasDistinctKeys s.cache
      → view s j ≡ some t
      → let u = (archive rename_ok mod_time cutoff s).0 in
        let gone = is_terminal t && ltb t.last_updated_at cutoff && rename_ok j in
        (view u j ≡ (if gone then none else some t))
        × (get u.disk j ≡ (if gone then none else get s.disk j))
  unfolding archive view is_due
  archive_effect s j t d h =
      let (p, e, o) = pointer_of_view s j t h in
      let (c, f, same) = archive_from-get s.cache s 0 j d in
      let there : (archive_from rename_ok mod_time cutoff s 0 s.cache).0.object p ≡ t =
        ap (λ (g : ℕ → Task). g p) same ∙ o in
      (ground (arith, e, c, o, there), ground (arith, e, f, o))
