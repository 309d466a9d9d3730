-- ===== src/Amf0/RoundTrip.antt =====
-- What `serialize` writes, `deserialize` reads.
use rust_media_libs.Prelude.{
  ℕ, zero, suc, ◌+◌, ◌-◌, ◌*◌, ◌<◌, ◌≤◌, ◌≡◌, refl, ap, ◌∙◌, true, false, some, List, ◌∷◌, ◌++◌,
  length, length-append, append_assoc, ◌==◌, ok, arith,
}
use rust_media_libs.Bytes.{ByteOrder, read_int-encode, read_exact-append}
use rust_media_libs.Amf0.Utf8.{is_utf8}
use rust_media_libs.Amf0.Value.{
  Value, Values, Properties, number, boolean, utf8_string, object, strict_array, null, undefined,
  nil, cons, end, property, length_values, insert,
}
use rust_media_libs.Amf0.Serialize.{serialize}
use rust_media_libs.Amf0.Deserialize.{
  read_next_value, parse_object, parse_strict_array, parse_object_property, parse_number,
  parse_bool, parse_string, parse_object_end, parse_label, from_utf8, read_values, deserialize,
}
use rust_media_libs.Amf0.Format.{
  absent, join, IsFresh, IsText, IsEncodable, AreEncodable, AreNamed, encode_value, encode_values,
  encode_properties, serialize_values_eq,
}

insert-absent :
    (name : List ℕ) (v : Value) (ps : Properties)
    → absent name ps ≡ true
    → insert name v ps ≡ join ps (property name v end)
unfolding insert
insert-absent name v end h = refl
insert-absent name v (property other w ps) h = ground (arith, insert-absent name v ps)

join-end : (ps : Properties) → join ps end ≡ ps
join-end end = refl
join-end (property name v ps) = ap (property name v) (join-end ps)

join_assoc : (ps qs rs : Properties) → join (join ps qs) rs ≡ join ps (join qs rs)
join_assoc end qs rs = refl
join_assoc (property name v ps) qs rs = ap (property name v) (join_assoc ps qs rs)

module _ ⦃bo : ByteOrder⦄ where
  length-encode_value_pos : (v : Value) → 0 < length (encode_value v)
  unfolding encode_value
  length-encode_value_pos (number n) = omega arith
  length-encode_value_pos _ = omega arith

  parse_label-append :
      (name rest : List ℕ)
      → is_utf8 name ≡ true
      → parse_label (length name) (name ++ rest) ≡ ok (name, rest)
  unfolding parse_label from_utf8
  parse_label-append name rest h = rw (read_exact-append (length name) name rest refl, h)

  parse_string-append :
      (s rest : List ℕ)
      → IsText s
      → parse_string (bo.u16_be.encode (length s) ++ (s ++ rest)) ≡ ok (utf8_string s, rest)
  unfolding parse_string from_utf8
  parse_string-append s rest h = rw (
    read_int-encode bo.u16_be (length s) (s ++ rest) (omega (arith, h.0)),
    read_exact-append (length s) s rest refl,
    h.1,
  )

  -- One round of the loop over an array.
  read_item :
      (f n : ℕ) (v : Value) (vs : Values) (bytes middle rest : List ℕ)
      → read_next_value f bytes ≡ ok (some v, middle)
      → parse_strict_array f n middle ≡ ok (vs, rest)
      → parse_strict_array (suc f) (suc n) bytes ≡ ok (cons v vs, rest)
  unfolding read_next_value
  read_item f n v vs bytes middle rest e₁ e₂ =
      let count : suc n - 1 ≡ n = omega arith in
      let more : (suc n == 0) ≡ false = ground arith in rw (more, e₁, count, e₂)

  property_sizes :
      (a b c d : List ℕ)
      → length (a ++ (b ++ (c ++ d))) ≡ length a + (length b + (length c + length d))
  property_sizes a b c d =
      omega (arith, length-append a (b ++ (c ++ d)), length-append b (c ++ d), length-append c d)

  -- One round of the loop over an object's properties.
  parse_object_next :
      (f : ℕ) (front : Properties) (name : List ℕ) (v : Value) (bytes rest : List ℕ)
      → parse_object_property f bytes ≡ ok (some (name, v), rest)
      → parse_object (suc f) front bytes ≡ parse_object f (insert name v front) rest
  unfolding read_next_value
  parse_object_next f front name v bytes rest e = rw e

  read_property :
      (f : ℕ) (name : List ℕ) (v : Value) (rest : List ℕ)
      → IsText name
      → 0 < length name
      → read_next_value f (encode_value v ++ rest) ≡ ok (some v, rest)
      → parse_object_property
          (suc f)
          (bo.u16_be.encode (length name) ++ (name ++ (encode_value v ++ rest)))
        ≡ ok (some (name, v), rest)
  unfolding read_next_value
  read_property f name v rest text named e =
      let not_empty : (length name == 0) ≡ false = ground arith in
      rw (
        read_int-encode bo.u16_be (length name) (name ++ (encode_value v ++ rest))
            (omega (arith, text.0)),
        not_empty,
        parse_label-append name (encode_value v ++ rest) text.1,
        e,
      )

  read_entry :
      (f : ℕ) (front : Properties) (name : List ℕ) (v : Value) (more rest : List ℕ)
      {last : Properties}
      → IsText name
      → 0 < length name
      → absent name front ≡ true
      → read_next_value f (encode_value v ++ (more ++ rest)) ≡ ok (some v, more ++ rest)
      → parse_object (suc f) (join front (property name v end)) (more ++ rest) ≡ ok (last, rest)
      → parse_object
          (suc (suc f))
          front
          ((bo.u16_be.encode (length name) ++ (name ++ (encode_value v ++ more))) ++ rest)
        ≡ ok (last, rest)
  read_entry f front name v more rest text named fresh e next =
      let bytes = bo.u16_be.encode (length name) in
      let nested : (bytes ++ (name ++ (encode_value v ++ more))) ++ rest
          ≡ bytes ++ (name ++ (encode_value v ++ (more ++ rest))) =
        simp append_assoc in
      ap (λ b. parse_object (suc (suc f)) front b) nested
      ∙ parse_object_next (suc f) front name v _ _
          (read_property f name v (more ++ rest) text named e)
      ∙ ap (λ ps. parse_object (suc f) ps (more ++ rest)) (insert-absent name v front fresh)
      ∙ next

  mutual
    unfolding read_next_value parse_number parse_bool parse_object_end encode_value IsEncodable

    read_value :
        (v : Value) (f : ℕ) (rest : List ℕ)
        → IsEncodable v
        → 3 * length (encode_value v) + 1 ≤ f
        → read_next_value f (encode_value v ++ rest) ≡ ok (some v, rest)
    read_value v zero rest h hf = absurd (omega arith)
    read_value (number n) (suc f) rest h hf = rw (read_int-encode bo.f64_be n rest h)
    read_value (boolean true) (suc f) rest h hf = refl
    read_value (boolean false) (suc f) rest h hf = refl
    read_value null (suc f) rest h hf = refl
    read_value undefined (suc f) rest h hf = refl
    read_value (utf8_string s) (suc f) rest h hf =
        rw append_assoc (rw (parse_string-append s rest h))
    read_value (object ps) (suc f) rest h hf =
        rw (read_properties ps end f rest h.0 h.1 (omega arith))
    read_value (strict_array vs) (suc f) rest h hf = rw append_assoc (
        rw (
          read_int-encode bo.u32_be (length_values vs) (encode_values vs ++ rest) h.1,
          read_items vs f rest h.0 (
              omega
                (arith, length-append (bo.u32_be.encode (length_values vs)) (encode_values vs))),
        ))

    read_items :
        (vs : Values) (f : ℕ) (rest : List ℕ)
        → AreEncodable vs
        → 3 * length (encode_values vs) + 2 ≤ f
        → parse_strict_array f (length_values vs) (encode_values vs ++ rest) ≡ ok (vs, rest)
    read_items vs zero rest h hf = absurd (omega arith)
    read_items nil (suc f) rest h hf = refl
    read_items (cons v vs) (suc f) rest h hf =
        let sizes = length-append (encode_value v) (encode_values vs) in
        let some_bytes = length-encode_value_pos v in
        rw append_assoc (
          read_item f (length_values vs) v vs _ _ rest
            (read_value v f (encode_values vs ++ rest) h.0 (omega (arith, sizes)))
            (read_items vs f rest h.1 (omega (arith, sizes, some_bytes))))

    read_properties :
        (ps front : Properties) (f : ℕ) (rest : List ℕ)
        → AreNamed ps
        → IsFresh front ps
        → 3 * length (encode_properties ps) + 3 ≤ f
        → parse_object f front (encode_properties ps ++ rest) ≡ ok (join front ps, rest)
    read_properties ps front zero rest h fresh hf = absurd (omega arith)
    read_properties end front (suc zero) rest h fresh hf = absurd (omega arith)
    read_properties end front (suc (suc f)) rest h fresh hf =
        rw append_assoc (rw (read_int-encode bo.u16_be 0 (9 ∷ rest) (omega arith), join-end front))
    read_properties (property name v ps) front (suc zero) rest h fresh hf = absurd (omega arith)
    read_properties (property name v ps) front (suc (suc f)) rest h fresh hf =
        let value = encode_value v in
        let more = encode_properties ps in
        let sizes = property_sizes (bo.u16_be.encode (length name)) name value more in
        read_entry f front name v more rest h.0 h.1 fresh.0
          (read_value v f (more ++ rest) h.2 (omega (arith, sizes)))
          (read_properties ps (join front (property name v end)) (suc f) rest h.3 fresh.1
              (omega (arith, sizes, h.1))
            ∙ ap (λ qs. ok (qs, rest)) (join_assoc front (property name v end) ps))

  read_all :
      (vs : Values) (f : ℕ)
      → AreEncodable vs
      → 3 * length (encode_values vs) + 3 ≤ f
      → read_values f (encode_values vs) ≡ ok vs
  unfolding read_values encode_value IsEncodable read_next_value
  read_all vs zero h hf = absurd (omega arith)
  read_all nil (suc zero) h hf = absurd (omega arith)
  read_all nil (suc (suc f)) h hf = refl
  read_all (cons v vs) (suc f) h hf =
      let sizes = length-append (encode_value v) (encode_values vs) in
      rw (
        read_value v f (encode_values vs) h.0 (omega (arith, sizes)),
        read_all vs f h.1 (omega (arith, sizes, length-encode_value_pos v)),
      )

  -- Every list of encodable values is serialized, and deserializing the bytes gives back those
  -- values, with the properties of each object in the same order.
  pub deserialize-serialize :
      (vs : Values)
      → AreEncodable vs
      → (bytes : List ℕ) × (serialize vs ≡ ok bytes) × (deserialize bytes ≡ ok vs)
  unfolding serialize deserialize
  deserialize-serialize vs h = (
    encode_values vs,
    serialize_values_eq vs h,
    read_all vs (3 * length (encode_values vs) + 3) h (omega arith),
  )
