-- ===== src/Relational/Pushing.antt =====
-- The loops of crates/executor/src/executor/set_ops.rs and distinct.rs against the rows they keep, and
-- equality of their keys.
use yacht_sql.Prelude.{
  ℕ, ◌≡◌, ◌↔◌, refl, sym, ap, ap₂, ◌∙◌, Bool, true, false, not, ◌&&◌, inl, inr, List, [], ◌∷◌, ◌++◌,
  arith, ltb, if◌then◌else◌, Bool-cases, and_parts,
}
use yacht_sql.Prelude.Text.{Text, text_eq, text_eq_iff}
use yacht_sql.Common.Error.{Result, ok, err, ◌>>=◌}
use yacht_sql.Common.Externals.{Externals}
use yacht_sql.Common.ValueEquality.{bool_eq}
use yacht_sql.Storage.Column.{Column}
use yacht_sql.Storage.IndexMap.{IndexMap}
use yacht_sql.Storage.Table.{Table}
use yacht_sql.Storage.Table.RowOps.{Record, push_rows}
use yacht_sql.Relational.Loops.{pushed, push_rows_step, bind_ext, bind_assoc}
use yacht_sql.Relational.Distinct.{
  ValueKey, other, value_key_eq, keys_eq, texts_eq, seen_before, decrement, count_in, push_unseen,
  push_counted, push_uncounted, result_table,
}
use yacht_sql.Relational.Bags.{unseen, counted, uncounted}

module _ {K : Type 0} (key_eq : K → K → Bool)
    (law : (j k : K) → (key_eq j k ≡ true) ↔ (j ≡ k)) where
  keys_eq_sound : (js ks : List K) → keys_eq key_eq js ks ≡ true → js ≡ ks
  unfolding keys_eq
  keys_eq_sound [] [] h = refl
  keys_eq_sound (j ∷ js) (k ∷ ks) h =
      let (first, others) = and_parts (key_eq j k) _ h in
      ap₂ ◌∷◌ ((law j k).0 first) (keys_eq_sound js ks others)
  keys_eq_sound [] (k ∷ ks) h = cc
  keys_eq_sound (j ∷ js) [] h = cc

  keys_eq_refl : (js : List K) → keys_eq key_eq js js ≡ true
  unfolding keys_eq
  keys_eq_refl [] = refl
  keys_eq_refl (j ∷ js) = rw ((law j j).1 refl) (keys_eq_refl js)

  pub keys_eq_iff : (js ks : List K) → (keys_eq key_eq js ks ≡ true) ↔ (js ≡ ks)
  keys_eq_iff js ks = (keys_eq_sound js ks, λ e. ap (keys_eq key_eq js) (sym e) ∙ keys_eq_refl js)

pub texts_eq_iff : (js ks : List Text) → (texts_eq js ks ≡ true) ↔ (js ≡ ks)
texts_eq_iff = keys_eq_iff text_eq text_eq_iff

pub value_key_eq_iff : (j k : ValueKey) → (value_key_eq j k ≡ true) ↔ (j ≡ k)
unfolding value_key_eq bool_eq
value_key_eq_iff (ValueKey.string a) (ValueKey.string b) = ground (arith, text_eq_iff a b)
value_key_eq_iff (ValueKey.bytes a) (ValueKey.bytes b) = ground (arith, text_eq_iff a b)
value_key_eq_iff (other a) (other b) = ground (arith, text_eq_iff a b)
value_key_eq_iff (ValueKey.bool true) (ValueKey.bool b) = ground arith
value_key_eq_iff (ValueKey.bool false) (ValueKey.bool b) = ground arith
value_key_eq_iff _ _ = ground arith

module _ {X : Externals} {I : IndexMap (Column X)} where
  push_step :
      (r : Record X) (rs : List (Record X)) (t : Table X I) (f : Table X I → Result (Table X I))
      → ((t' : Table X I) → f t' ≡ push_rows rs t')
      → (pushed r t >>= f) ≡ push_rows (r ∷ rs) t
  push_step r rs t f h = bind_ext (pushed r t) f (push_rows rs) h ∙ sym (push_rows_step r rs t)

  drop_seen :
      {K : Type 0} (seen : List K) (m : Result (Table X I))
      → result_table (m >>= λ t. ok (seen, t)) ≡ m
  drop_seen seen (ok t) = refl
  drop_seen seen (err e) = refl

  unseen_taken :
      {K : Type 0} (seen : List K) (r : Record X) (rs : List (Record X)) (t : Table X I)
      (f : Table X I → Result (List K × Table X I))
      → ((t' : Table X I) → f t' ≡ (push_rows rs t' >>= λ u. ok (seen, u)))
      → (pushed r t >>= f) ≡ (push_rows (r ∷ rs) t >>= λ u. ok (seen, u))
  unseen_taken seen r rs t f h =
      bind_ext (pushed r t) f (λ t'. push_rows rs t' >>= λ u. ok (seen, u)) h
      ∙ bind_assoc (pushed r t) (push_rows rs) (λ u. ok (seen, u))
      ∙ ap (λ m. m >>= λ u. ok (seen, u)) (sym (push_rows_step r rs t))

module _ {X : Externals} {K : Type 0} (key : Record X → K) (same : K → K → Bool) where
  -- The keys that `push_unseen` has seen at its end.
  unfoldable pub seen_after : (K → Bool) → List K → List (Record X) → List K
  seen_after wanted seen [] = seen
  seen_after wanted seen (r ∷ rs) =
      let skipped = seen_after wanted seen rs in
      let taken = seen_after wanted (key r ∷ seen) rs in
      if wanted (key r) && not (seen_before same (key r) seen) then taken else skipped

  pub unseen-append :
      (wanted : K → Bool) (seen : List K) (xs ys : List (Record X))
      → unseen key same wanted seen (xs ++ ys)
        ≡ unseen key same wanted seen xs ++ unseen key same wanted (seen_after wanted seen xs) ys
  unfolding unseen seen_after
  unseen-append wanted seen [] ys = refl
  unseen-append wanted seen (r ∷ rs) ys =
      ground (arith, unseen-append wanted seen rs ys, unseen-append wanted (key r ∷ seen) rs ys)

module _ {X : Externals} {I : IndexMap (Column X)} {K : Type 0} (key : Record X → K)
    (same : K → K → Bool) where
  -- The loops push what the lists of the kept rows hold.
  pub push_unseen-push_rows :
      (wanted : K → Bool) (seen : List K) (rs : List (Record X)) (t : Table X I)
      → push_unseen key same wanted seen rs t ≡ (
          push_rows (unseen key same wanted seen rs) t >>= λ u.
          ok (seen_after key same wanted seen rs, u))
  unfolding push_unseen unseen seen_after
  push_unseen-push_rows wanted seen [] t = unfold push_rows in refl
  push_unseen-push_rows wanted seen (r ∷ rs) t =
      elim (Bool-cases (wanted (key r) && not (seen_before same (key r) seen))) [
        | inr e ↦ rw e (push_unseen-push_rows wanted seen rs t)
        | inl e ↦ rw e (
            unseen_taken (seen_after key same wanted (key r ∷ seen) rs) r
              (unseen key same wanted (key r ∷ seen) rs) t
              (push_unseen key same wanted (key r ∷ seen) rs)
              (push_unseen-push_rows wanted (key r ∷ seen) rs))
      ]

  pub push_unseen_table :
      (wanted : K → Bool) (seen : List K) (rs : List (Record X)) (t : Table X I)
      → result_table (push_unseen key same wanted seen rs t)
        ≡ push_rows (unseen key same wanted seen rs) t
  push_unseen_table wanted seen rs t =
      ap result_table (push_unseen-push_rows wanted seen rs t)
      ∙ drop_seen (seen_after key same wanted seen rs)
          (push_rows (unseen key same wanted seen rs) t)

  pub push_counted-push_rows :
      (counts : List (K × ℕ)) (rs : List (Record X)) (t : Table X I)
      → push_counted key same counts rs t ≡ push_rows (counted key same counts rs) t
  unfolding push_counted counted
  push_counted-push_rows counts [] t = unfold push_rows in refl
  push_counted-push_rows counts (r ∷ rs) t =
      elim (Bool-cases (ltb 0 (count_in same (key r) counts))) [
        | inr e ↦ rw e (push_counted-push_rows counts rs t)
        | inl e ↦ rw e (
            push_step r (counted key same (decrement same (key r) counts) rs) t
              (push_counted key same (decrement same (key r) counts) rs)
              (push_counted-push_rows (decrement same (key r) counts) rs))
      ]

  pub push_uncounted-push_rows :
      (counts : List (K × ℕ)) (rs : List (Record X)) (t : Table X I)
      → push_uncounted key same counts rs t ≡ push_rows (uncounted key same counts rs) t
  unfolding push_uncounted uncounted
  push_uncounted-push_rows counts [] t = unfold push_rows in refl
  push_uncounted-push_rows counts (r ∷ rs) t =
      elim (Bool-cases (ltb 0 (count_in same (key r) counts))) [
        | inl e ↦ rw e (push_uncounted-push_rows (decrement same (key r) counts) rs t)
        | inr e ↦ rw e (
            push_step r (uncounted key same counts rs) t (push_uncounted key same counts rs)
              (push_uncounted-push_rows counts rs))
      ]
