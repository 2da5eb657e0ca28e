-- ===== src/Meter698/Data/RoundTrip.antt =====
-- The encoding of A-XDR values, which the adapter only reads, and `_parse_data` on what is encoded. Its
-- lists hold bytes where the numbers fit in their width and the lengths in one byte.
use zzt_self.Base.{
  ℕ, suc, ◌+◌, ◌-◌, ◌/◌, ◌%◌, ◌^◌, ◌≡◌, refl, sym, ap, ◌∙◌, Bool, true, false, Option, none, some,
  [], ◌∷◌, ◌++◌, append_assoc, arith, ltb, ◌==◌, if◌then◌else◌, Bytes, length, get_elem?, take,
  drop, length-append, take-length-append, drop-length-append, get_elem?-append,
}
use zzt_self.Meter698.Frame.{slice}
use zzt_self.Meter698.Data.{
  Value, Values, empty, null, flag, number, unsigned, pos, hex, many, nil, cons, big_endian,
  parse_fixed, parse_prefixed, parse_nested, parse_items, parse_tag, parse_data,
}
use zzt_self.Meter698.Data.Total.{parse_data-parse_tag}

-- NULL, BOOL, UNSIGNED, LONG-UNSIGNED, DOUBLE-LONG-UNSIGNED, OCTET-STRING, and an array or a
-- structure.
mutual
  pub data Item : Type 0 where
    null_item : Item
    bool_item : Bool → Item
    unsigned_item long_unsigned_item double_long_unsigned_item : ℕ → Item
    octets : Bytes → Item
    array_item structure_item : Items → Item

  pub data Items : Type 0 where
    no_items : Items
    item_then : Item → Items → Items

unfoldable pub item_count : Items → ℕ
item_count no_items = 0
item_count (item_then v vs) = suc (item_count vs)

unfoldable mutual
  pub encode : Item → Bytes
  encode null_item = 0 ∷ []
  encode (bool_item b) = 3 ∷ (if b then 1 else 0) ∷ []
  encode (unsigned_item n) = 17 ∷ n ∷ []
  encode (long_unsigned_item n) = 18 ∷ (n / 256) ∷ (n % 256) ∷ []
  encode (double_long_unsigned_item n) =
      6 ∷ (n / 2 ^ 24) ∷ (n / 2 ^ 16 % 256) ∷ (n / 256 % 256) ∷ (n % 256) ∷ []
  encode (octets bs) = 9 ∷ length bs ∷ bs
  encode (array_item vs) = 1 ∷ item_count vs ∷ encode_items vs
  encode (structure_item vs) = 2 ∷ item_count vs ∷ encode_items vs

  pub encode_items : Items → Bytes
  encode_items no_items = []
  encode_items (item_then v vs) = encode v ++ encode_items vs

unfoldable mutual
  pub value_of : Item → Value
  value_of null_item = null
  value_of (bool_item b) = flag b
  value_of (unsigned_item n) = number (pos n)
  value_of (long_unsigned_item n) = number (pos n)
  value_of (double_long_unsigned_item n) = number (pos n)
  value_of (octets bs) = hex bs
  value_of (array_item vs) = many (values_of vs)
  value_of (structure_item vs) = many (values_of vs)

  pub values_of : Items → Values
  values_of no_items = nil
  values_of (item_then v vs) = cons (value_of v) (values_of vs)

slice-append :
    (a b : ℕ) (front mid back buf : Bytes)
    → buf ≡ front ++ (mid ++ back)
    → a ≡ length front
    → b ≡ a + length mid
    → slice a b buf ≡ mid
slice-append a b front mid back buf e f g =
    ap (λ n. take n (drop a buf)) size
    ∙ ap (λ n. take (length mid) (drop n buf)) f
    ∙ ap (λ bs. take (length mid) (drop (length front) bs)) e
    ∙ ap (take (length mid)) (drop-length-append front (mid ++ back))
    ∙ take-length-append mid back
  where
    size : b - a ≡ length mid
    size = omega (arith, g)

-- The tag and what follows it.
module _ (pre rest : Bytes) (tag : ℕ) (content : Bytes) where
  abbrev whole : Bytes
  whole = pre ++ ((tag ∷ content) ++ rest)

  tag_there : get_elem? whole (length pre) ≡ some tag
  tag_there = get_elem?-append pre (content ++ rest) tag

  after_tag : whole ≡ (pre ++ (tag ∷ [])) ++ (content ++ rest)
  after_tag = sym (append_assoc pre (tag ∷ []) (content ++ rest))

  length-whole : length whole ≡ length pre + suc (length content) + length rest
  length-whole =
      omega (arith, length-append pre ((tag ∷ content) ++ rest), length-append content rest)

  by_tag :
      parse_data whole (length pre)
      ≡ parse_tag (parse_nested (parse_data whole) whole (length pre)) whole (length pre) tag
  by_tag =
      parse_data-parse_tag whole (length pre)
      ∙ ap
          (λ (o : Option ℕ). elim o [
            | none ↦ some (empty, 0)
            | some t ↦
                parse_tag (parse_nested (parse_data whole) whole (length pre)) whole (length pre) t
          ])
          tag_there

  fixed_there :
      (make : Bytes → Value)
      → parse_fixed (length content) make whole (length pre)
        ≡ some (make content, 1 + length content)
  fixed_there make =
      let fits : ltb (length pre + length content) (length whole) ≡ true =
        ground (arith, length-whole) in
      let there : slice (length pre + 1) (length pre + 1 + length content) whole ≡ content =
        slice-append _ _ (pre ++ (tag ∷ [])) content rest whole after_tag
          (omega (arith, length-append pre (tag ∷ []))) refl in
      rw (fits, there) refl

prefixed_there :
    (pre rest : Bytes) (tag : ℕ) (bs : Bytes)
    → parse_prefixed hex (whole pre rest tag (length bs ∷ bs)) (length pre)
      ≡ some (hex bs, 2 + length bs)
prefixed_there pre rest tag bs =
    let buf = whole pre rest tag (length bs ∷ bs) in
    let front = pre ++ (tag ∷ []) in
    let size : length pre + 1 ≡ length front = omega (arith, length-append pre (tag ∷ [])) in
    let prefix : get_elem? buf (length pre + 1) ≡ some (length bs) =
      ap (get_elem? buf) size
      ∙ ap (λ b. get_elem? b (length front)) (after_tag pre rest tag (length bs ∷ bs))
      ∙ get_elem?-append front (bs ++ rest) (length bs) in
    let fits : ltb (length pre + 1 + length bs) (length buf) ≡ true =
      ground (arith, length-whole pre rest tag (length bs ∷ bs)) in
    let there : slice (length pre + 2) (length pre + 2 + length bs) buf ≡ bs =
      slice-append _ _ (front ++ (length bs ∷ [])) bs rest buf
        (after_tag pre rest tag (length bs ∷ bs)
          ∙ sym (append_assoc front (length bs ∷ []) (bs ++ rest)))
        (omega (arith, size, length-append front (length bs ∷ []))) refl in
    rw (parse_prefixed, prefix) (rw (fits, there) refl)

abbrev Reads : Item → Type 0
Reads v =
    (pre rest : Bytes)
    → parse_data (pre ++ (encode v ++ rest)) (length pre) ≡ some (value_of v, length (encode v))

abbrev ReadAll : Items → Type 0
ReadAll vs =
    (pre rest buf : Bytes) (at : ℕ)
    → buf ≡ pre ++ (encode_items vs ++ rest)
    → at ≡ length pre
    → parse_items (parse_data buf) (item_count vs) at
      ≡ some (values_of vs, at + length (encode_items vs))

ReadAll-item_then : (v : Item) (vs : Items) → Reads v → ReadAll vs → ReadAll (item_then v vs)
unfolding parse_items item_count encode value_of
ReadAll-item_then v vs one later pre rest buf at e f =
    let split : buf ≡ pre ++ (encode v ++ (encode_items vs ++ rest)) =
      e ∙ ap (◌++◌ pre) (append_assoc (encode v) (encode_items vs) rest) in
    let first : parse_data buf at ≡ some (value_of v, length (encode v)) =
      ap (parse_data buf) f
      ∙ ap (λ b. parse_data b (length pre)) split
      ∙ one pre (encode_items vs ++ rest) in
    let others =
      later (pre ++ encode v) rest buf (at + length (encode v))
        (split ∙ sym (append_assoc pre (encode v) (encode_items vs ++ rest)))
        (omega (arith, f, length-append pre (encode v))) in
    rw first (
      rw others (
        ap (λ n. some (cons (value_of v) (values_of vs), n))
          (omega (arith, length-append (encode v) (encode_items vs)))))

nested_there :
    (pre rest : Bytes) (tag : ℕ) (vs : Items)
    → ReadAll vs
    → let buf = whole pre rest tag (item_count vs ∷ encode_items vs) in
      parse_nested (parse_data buf) buf (length pre)
      ≡ some (many (values_of vs), 2 + length (encode_items vs))
nested_there pre rest tag vs all =
    let buf = whole pre rest tag (item_count vs ∷ encode_items vs) in
    let front = pre ++ (tag ∷ []) in
    let size : length pre + 1 ≡ length front = omega (arith, length-append pre (tag ∷ [])) in
    let counted : get_elem? buf (length pre + 1) ≡ some (item_count vs) =
      ap (get_elem? buf) size
      ∙ ap (λ b. get_elem? b (length front))
          (after_tag pre rest tag (item_count vs ∷ encode_items vs))
      ∙ get_elem?-append front (encode_items vs ++ rest) (item_count vs) in
    let items =
      all (front ++ (item_count vs ∷ [])) rest buf (length pre + 2)
        (after_tag pre rest tag (item_count vs ∷ encode_items vs)
          ∙ sym (append_assoc front (item_count vs ∷ []) (encode_items vs ++ rest)))
        (omega (arith, size, length-append front (item_count vs ∷ []))) in
    rw (parse_nested, counted) (rw items (ap (λ n. some (many (values_of vs), n)) (omega arith)))

big_endian_1 : (n : ℕ) → big_endian 0 (n ∷ []) ≡ n
big_endian_1 n = omega arith

big_endian_2 : (n : ℕ) → big_endian 0 (n / 256 ∷ n % 256 ∷ []) ≡ n
big_endian_2 n = omega arith

big_endian_4 :
    (n : ℕ) → big_endian 0 (n / 2 ^ 24 ∷ n / 2 ^ 16 % 256 ∷ n / 256 % 256 ∷ n % 256 ∷ []) ≡ n
big_endian_4 n = omega arith

abbrev boolean : Bytes → Value
boolean bs = flag (big_endian 0 bs % 2 == 1)

mutual
  unfolding parse_tag parse_items item_count encode value_of

  reads : (v : Item) → Reads v
  reads null_item pre rest = by_tag pre rest 0 [] ∙ fixed_there pre rest 0 [] (λ bs. null)
  reads (bool_item true) pre rest =
      by_tag pre rest 3 (1 ∷ []) ∙ fixed_there pre rest 3 (1 ∷ []) boolean
  reads (bool_item false) pre rest =
      by_tag pre rest 3 (0 ∷ []) ∙ fixed_there pre rest 3 (0 ∷ []) boolean
  reads (unsigned_item n) pre rest =
      by_tag pre rest 17 (n ∷ [])
      ∙ fixed_there pre rest 17 (n ∷ []) unsigned
      ∙ ap (λ k. some (number (pos k), 2)) (big_endian_1 n)
  reads (long_unsigned_item n) pre rest =
      let content = n / 256 ∷ n % 256 ∷ [] in
      by_tag pre rest 18 content
      ∙ fixed_there pre rest 18 content unsigned
      ∙ ap (λ k. some (number (pos k), 3)) (big_endian_2 n)
  reads (double_long_unsigned_item n) pre rest =
      let content = n / 2 ^ 24 ∷ n / 2 ^ 16 % 256 ∷ n / 256 % 256 ∷ n % 256 ∷ [] in
      by_tag pre rest 6 content
      ∙ fixed_there pre rest 6 content unsigned
      ∙ ap (λ k. some (number (pos k), 5)) (big_endian_4 n)
  reads (octets bs) pre rest =
      by_tag pre rest 9 (length bs ∷ bs)
      ∙ prefixed_there pre rest 9 bs
      ∙ ap (λ n. some (hex bs, n)) (omega arith)
  reads (array_item vs) pre rest =
      by_tag pre rest 1 (item_count vs ∷ encode_items vs)
      ∙ nested_there pre rest 1 vs (read_all vs)
      ∙ ap (λ n. some (many (values_of vs), n)) (omega arith)
  reads (structure_item vs) pre rest =
      by_tag pre rest 2 (item_count vs ∷ encode_items vs)
      ∙ nested_there pre rest 2 vs (read_all vs)
      ∙ ap (λ n. some (many (values_of vs), n)) (omega arith)

  read_all : (vs : Items) → ReadAll vs
  read_all no_items pre rest buf at e f = ap (λ n. some (nil, n)) (omega arith)
  read_all (item_then v vs) pre rest buf at e f =
      ReadAll-item_then v vs (reads v) (read_all vs) pre rest buf at e f
