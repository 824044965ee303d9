-- ===== src/Canonical/Accepted.antt =====
-- Which decoded documents normalizeValue accepts, and what it makes of them.
use auditchain_gateway_backe.Prelude.{
  ◌≡◌, refl, sym, ◌∙◌, Bool, true, false, not, ◌&&◌, ◌||◌, Option, none, some, is_some, Bool-cases,
  Option-cases, inl, inr, arith,
}
use auditchain_gateway_backe.Prelude.Text.{Text, text_eq, is_empty}
use auditchain_gateway_backe.Json.{
  Value, Items, Fields, null, boolean, number, string, array, object, no_items, item, no_fields,
  field,
}
use auditchain_gateway_backe.Canonical.Number.{canonical_number}
use auditchain_gateway_backe.Canonical.{
  has_field, normalize_key, put_field, as_number, as_array, as_object, as_item, normalize_value,
  normalize_items, normalize_fields,
}

is_some-as_object : (o : Option (Fields Text)) → is_some (as_object o) ≡ is_some o
is_some-as_object none = refl
is_some-as_object (some m) = refl

is_some-as_array : (o : Option (Items Text)) → is_some (as_array o) ≡ is_some o
is_some-as_array none = refl
is_some-as_array (some xs) = refl

is_some-as_number : (o : Option Text) → is_some (as_number o) ≡ is_some o
is_some-as_number none = refl
is_some-as_number (some s) = refl

is_some-as_item :
    (v : Option (Value Text)) (xs : Option (Items Text))
    → is_some (as_item v xs) ≡ (is_some v && is_some xs)
is_some-as_item none xs = refl
is_some-as_item (some v) none = refl
is_some-as_item (some v) (some xs) = refl

module _ (wide_lower : Text → Text) where
  -- whether a field of the document has a key that normalizes to `key`
  unfoldable pub has_key : Text → Fields Text → Bool
  has_key key no_fields = false
  has_key key (field k v m) = text_eq key (normalize_key wide_lower k) || has_key key m

  -- At every depth the keys are neither empty nor equal once they are normalized, and the numbers
  -- are in range.
  unfoldable mutual
    pub is_acceptable : Value Text → Bool
    is_acceptable (object m) = are_acceptable_fields m
    is_acceptable (array xs) = are_acceptable_items xs
    is_acceptable (number n) = is_some (canonical_number n)
    is_acceptable null = true
    is_acceptable (boolean b) = true
    is_acceptable (string s) = true

    pub are_acceptable_items : Items Text → Bool
    are_acceptable_items no_items = true
    are_acceptable_items (item v xs) = is_acceptable v && are_acceptable_items xs

    pub are_acceptable_fields : Fields Text → Bool
    are_acceptable_fields no_fields = true
    are_acceptable_fields (field k v m) =
        not (is_empty (normalize_key wide_lower k))
        && not (has_key (normalize_key wide_lower k) m)
        && is_acceptable v
        && are_acceptable_fields m

  avoids : Fields Text → Fields Text → Bool
  avoids no_fields r = true
  avoids (field k v m) r = not (has_field (normalize_key wide_lower k) r) && avoids m r

  avoids-put :
      (m r : Fields Text) (key : Text) (w : Value Text)
      → avoids m (field key w r) ≡ (not (has_key key m) && avoids m r)
  unfolding avoids has_key has_field
  avoids-put no_fields r key w = refl
  avoids-put (field k v m) r key w = ground (arith, avoids-put m r key w)

  avoids-empty : (m : Fields Text) → avoids m no_fields ≡ true
  unfolding avoids has_field
  avoids-empty no_fields = refl
  avoids-empty (field k v m) = avoids-empty m

  failed_fields : (m : Fields Text) → normalize_fields wide_lower m none ≡ none
  unfolding normalize_value put_field
  failed_fields no_fields = refl
  failed_fields (field k v m) = failed_fields m

  -- One field, for the three things that decide on it: the tests of its key and its value.
  accepted_field :
      (k : Text) (v : Value Text) (m r : Fields Text)
      → is_some (normalize_value wide_lower v) ≡ is_acceptable v
      → ((r' : Fields Text)
          → is_some (normalize_fields wide_lower m (some r'))
            ≡ (are_acceptable_fields m && avoids m r'))
      → is_some (normalize_fields wide_lower (field k v m) (some r))
        ≡ (are_acceptable_fields (field k v m) && avoids (field k v m) r)
  unfolding normalize_value put_field is_acceptable avoids
  accepted_field k v m r hv hm = elim (Bool-cases (is_empty (normalize_key wide_lower k))) [
    | inl e ↦ rw (e, failed_fields m) refl
    | inr e ↦ elim (Bool-cases (has_field (normalize_key wide_lower k) r)) [
      | inl old ↦ rw (e, old, failed_fields m) (ground arith)
      | inr new ↦ elim (Option-cases (normalize_value wide_lower v)) [
        | inl bad ↦ rw (e, new, bad, failed_fields m, sym hv) (ground (arith, bad))
        | inr (w, good) ↦
            rw
              (
                e,
                new,
                good,
                hm (field (normalize_key wide_lower k) w r),
                sym hv,
                avoids-put m r (normalize_key wide_lower k) w,
              )
              (ground (arith, good))
      ]
    ]
  ]

  mutual
    unfolding normalize_value is_acceptable avoids

    accepted_value : (v : Value Text) → is_some (normalize_value wide_lower v) ≡ is_acceptable v
    accepted_value (object m) =
        rw
          (
            is_some-as_object (normalize_fields wide_lower m (some no_fields)),
            accepted_fields m no_fields,
            avoids-empty m,
          )
          (ground arith)
    accepted_value (array xs) = is_some-as_array (normalize_items wide_lower xs) ∙ accepted_items xs
    accepted_value (number n) = is_some-as_number (canonical_number n)
    accepted_value null = refl
    accepted_value (boolean b) = refl
    accepted_value (string s) = refl

    accepted_items :
        (xs : Items Text) → is_some (normalize_items wide_lower xs) ≡ are_acceptable_items xs
    accepted_items no_items = refl
    accepted_items (item v xs) =
        is_some-as_item (normalize_value wide_lower v) (normalize_items wide_lower xs)
        ∙ rw (accepted_value v, accepted_items xs) refl

    accepted_fields :
        (m r : Fields Text)
        → is_some (normalize_fields wide_lower m (some r)) ≡ (are_acceptable_fields m && avoids m r)
    accepted_fields no_fields r = refl
    accepted_fields (field k v m) r = accepted_field k v m r (accepted_value v) (accepted_fields m)

  -- normalizeValue succeeds exactly on the documents where, at every depth, the keys of an object
  -- stay non-empty and different once they are normalized, and every number is canonical_number's.
  pub normalize_value-IsAcceptable :
      (v : Value Text) → is_some (normalize_value wide_lower v) ≡ is_acceptable v
  normalize_value-IsAcceptable v = accepted_value v
