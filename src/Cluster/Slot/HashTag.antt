-- ===== src/Cluster/Slot/HashTag.antt =====
-- Keys with a hash tag: `GetSlotForKey` of internal/cluster/cluster.go.
use redis_meter.Base.{
  ℕ, suc, ◌-◌, ◌<◌, ◌%◌, ◌≡◌, refl, ap, sym, ◌∙◌, false, some, List, [], ◌∷◌, ◌++◌, lt→ltb, length,
  take, drop, arith,
}
use redis_meter.Base.Text.{Text, contains, index}
use redis_meter.Cluster.Slot.{crc16, hashed_part, get_slot_for_key}

-- Every slot is below 16384.
pub get_slot_for_key-bound : (key : Text) → get_slot_for_key key < 16384
unfolding get_slot_for_key
get_slot_for_key-bound key = omega arith

abbrev pub tagged : Text → Text → Text → Text
tagged before tag after = before ++ (b'{' ∷ (tag ++ (b'}' ∷ after)))

index-append :
    (c : ℕ) (s t : Text) → contains c s ≡ false → index c (s ++ (c ∷ t)) ≡ some (length s)
unfolding contains index
index-append c [] t h = ground arith
index-append c (x ∷ s) t h = ground (arith, index-append c s t)

drop-append {ℓ} : {A : Type ℓ} (s t : List A) → drop (length s) (s ++ t) ≡ t
drop-append [] t = refl
drop-append (x ∷ s) t = drop-append s t

take-append {ℓ} : {A : Type ℓ} (s t : List A) → take (length s) (s ++ t) ≡ s
take-append [] t = refl
take-append (x ∷ s) t = ap (◌∷◌ x) (take-append s t)

drop_next {ℓ} :
    {A : Type ℓ} (s : List A) (x : A) (t : List A) → drop (suc (length s)) (s ++ (x ∷ t)) ≡ t
drop_next [] x t = refl
drop_next (y ∷ s) x t = drop_next s x t

hashed_part-tagged :
    (before tag after : Text)
    → contains b'{' before ≡ false
    → contains b'}' tag ≡ false
    → 0 < length tag
    → hashed_part (tagged before tag after) ≡ tag
unfolding hashed_part
hashed_part-tagged before tag after b t l =
    let opened = index-append b'{' before (tag ++ (b'}' ∷ after)) b in
    let rest = drop-append before (b'{' ∷ (tag ++ (b'}' ∷ after))) in
    let closed : index b'}' (b'{' ∷ (tag ++ (b'}' ∷ after))) ≡ some (suc (length tag)) =
      unfold index in rw (index-append b'}' tag after t) in
    let long = lt→ltb 1 (suc (length tag)) (omega arith) in
    let less : suc (length tag) - 1 ≡ length tag = omega arith in
    rw
      (opened, rest, closed, drop_next before b'{' (tag ++ (b'}' ∷ after)), long, less, hashed_part)
      (take-append tag (b'}' ∷ after))

-- Two keys with one tag share a slot: the tag is not empty and has no `}`, and no `{` stands
-- before it.
pub same_tag_same_slot :
    (before tag after before2 after2 : Text)
    → contains b'{' before ≡ false
    → contains b'{' before2 ≡ false
    → contains b'}' tag ≡ false
    → 0 < length tag
    → get_slot_for_key (tagged before tag after) ≡ get_slot_for_key (tagged before2 tag after2)
unfolding get_slot_for_key
same_tag_same_slot before tag after before2 after2 b b2 t l =
    ap (λ k. crc16 k % 16384)
      (hashed_part-tagged before tag after b t l
        ∙ sym (hashed_part-tagged before2 tag after2 b2 t l))
