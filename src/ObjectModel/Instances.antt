-- ===== src/ObjectModel/Instances.antt =====
-- slvm_Behavior_basicNew makes an instance of the size that was asked for.
use slvm_native.Common.{
  ℕ, ◌+◌, ◌-◌, ◌*◌, ◌/◌, ◌%◌, ◌^◌, ◌≤◌, ◌<◌, ◌≡◌, ◌≢◌, ◌⊎◌, inl, inr, refl, ◌∙◌, true, false, ◌==◌,
  ltb, leb, if◌then◌else◌, arith, ok, ◌>>=◌, Returns_bind, Returns, ==_refl, ne→==,
}
use slvm_native.Common.Words.{add_word, sub_word, mul_word}
use slvm_native.Oop.{oop_is_pointers}
use slvm_native.ObjectModel.Formats.{format_multiplier, format_extra_size}
use slvm_native.ObjectModel.Sizes.{
  IsStored, oop_is_pointers_lem, basic_size_lem, few_or_many, word_padding, byte_padding,
}
use slvm_native.ObjectModel.{
  ObjectMemory, Behavior, write_header, fill_words, class_header, instantiate_object, decode_format,
  decode_fixed_size, extra_slots, basic_size, basic_new,
}
use slvm_native.ObjectModel.Making.{
  IsMemory, IsMade, Counted, instantiate_object_small, instantiate_object_big, fill_words_outside,
  fill_words_inside,
}

-- A new object: an instance of the behavior, of the given size, with its content, behind everything
-- that was there; no word and no header of another object has changed.
pub record IsInstance (m : ObjectMemory) (behavior size slots content : ℕ) (r : ℕ × ObjectMemory)
    : Type 0 where
  pub memory : IsMemory r.1
  pub pointer : oop_is_pointers r.0 ≡ true
  pub class_is : (r.1.headers r.0).class_index ≡ (m.headers behavior).identity_hash
  pub size_is : basic_size r.1 r.0 ≡ size
  pub content_is : (i : ℕ) → i < slots → r.1.words (r.0 + 8 + i * 8) ≡ content
  pub above : m.heap.start + m.heap.size + 8 ≤ r.0
  pub near : r.0 < m.heap.start + m.heap.size + 40
  pub ends : r.0 + 8 + slots * 8 ≡ r.1.heap.start + r.1.heap.size
  pub old_words : (x : ℕ) → x < m.heap.start + m.heap.size → r.1.words x ≡ m.words x
  pub old_headers : (o : ℕ) → o ≢ r.0 → r.1.headers o ≡ m.headers o

-- What basicNew does with the result of the instantiation.
abbrev pub finish : ℕ → ℕ → ℕ → ℕ → ℕ × ObjectMemory → ℕ × ObjectMemory
finish behavior format slots content r = (
  r.0,
  record (r.1) {
    headers =
        write_header r.1.headers r.0
          (class_header (r.1.headers r.0) (r.1.headers behavior).identity_hash format);
    words = fill_words r.1.words (add_word r.0 8) slots content;
  },
)

module _ (m : ObjectMemory) (behavior slots : ℕ) (is : IsMemory m)
    (room : m.heap.start + m.heap.size + slots * 8 + 5000 < 2 ^ 64)
    (elsewhere : (behavior < m.heap.start + m.heap.size)
      ⊎ (m.heap.start + m.heap.size + 40 ≤ behavior)) where
  pub finish-IsStored :
      (r : ℕ × ObjectMemory) (count format content : ℕ)
      → IsMade m (slots * 8) count r
      → ((slots < 255) × (count ≡ slots))
        ⊎ ((255 ≤ slots) × (count ≡ 255) × Counted m slots is room slots r)
      → IsStored (finish behavior format slots content r).1 r.0 slots (format % 32)
  finish-IsStored r count format content made sized =
      let next : add_word r.0 8 ≡ r.0 + 8 = omega (arith, made.near) in
      let back : sub_word r.0 8 ≡ r.0 - 8 = omega (arith, made.near, made.above) in
      let kept =
        fill_words_outside r.1.words (r.0 + 8) slots content (r.0 - 8) (omega (arith, made.near))
          (inl (omega (arith, made.above))) in
      record {
        aligned = made.aligned;
        format_is = rw (==_refl r.0) refl;
        slots_are = elim sized [
          | inl (few, c) ↦ inl (few, rw (==_refl r.0, made.header) c)
          | inr (many, c, counted) ↦
              inr
                (many, rw (==_refl r.0, made.header) c, rw (next, back) (kept ∙ rw back at counted))
        ];
      }

  finish-IsInstance :
      (r : ℕ × ObjectMemory) (count format content size : ℕ)
      → IsMade m (slots * 8) count r
      → ((slots < 255) × (count ≡ slots))
        ⊎ ((255 ≤ slots) × (count ≡ 255) × Counted m slots is room slots r)
      → format % 32 < 24
      → size + format_extra_size (format % 32) ≡ slots * format_multiplier (format % 32)
      → IsInstance m behavior size slots content (finish behavior format slots content r)
  finish-IsInstance r count format content size made sized plain sum =
      let next : add_word r.0 8 ≡ r.0 + 8 = omega (arith, made.near) in
      let stored = finish-IsStored r count format content made sized in
      let other : behavior ≢ r.0 = omega (arith, made.near, made.above) in
      let total =
        basic_size_lem _ r.0 slots (format % 32) stored plain (omega arith) (omega arith) in
      record {
        memory = record { heap = made.memory.heap; requested = made.memory.requested };
        pointer = oop_is_pointers_lem r.0 made.aligned;
        class_is = rw (==_refl r.0, made.old_headers behavior other) refl;
        size_is = omega (arith, total, sum);
        content_is = λ i h.
            rw next
              (fill_words_inside r.1.words (r.0 + 8) slots content i (omega (arith, made.near)) h);
        above = made.above;
        near = made.near;
        ends = made.ends;
        old_words = λ x h. rw next (
            fill_words_outside r.1.words (r.0 + 8) slots content x (omega (arith, made.near))
              (inl (omega (arith, made.above)))
            ∙ made.old_words x h);
        old_headers = λ o h. rw (ne→== o r.0 h) (made.old_headers o h);
      }

  -- The instantiation and what follows it.
  instantiate_finish :
      (format content size : ℕ)
      → format % 32 < 24
      → size + format_extra_size (format % 32) ≡ slots * format_multiplier (format % 32)
      → Returns
          (instantiate_object m slots >>= λ r. ok (finish behavior format slots content r))
          (IsInstance m behavior size slots content)
  instantiate_finish format content size plain sum = elim (few_or_many slots) [
    | inl few ↦
        Returns_bind (λ r. ok (finish behavior format slots content r))
          (instantiate_object_small m slots is room few)
          λ r made. (
            _,
            refl,
            finish-IsInstance r slots format content size made (inl (few, refl)) plain sum,
          )
    | inr many ↦
        Returns_bind (λ r. ok (finish behavior format slots content r))
          (instantiate_object_big m slots is room many)
          λ r (made, counted). (
            _,
            refl,
            finish-IsInstance r 255 format content size made (inr (many, refl, counted)) plain sum,
          )
  ]

extra_slots_words : (format n : ℕ) → format ≤ 9 → extra_slots format n ≡ (n, 8)
unfolding extra_slots
extra_slots_words format n h = ground arith

extra_slots_bytes : (n : ℕ) → n + 7 < 2 ^ 64 → extra_slots 16 n ≡ ((n + 7) / 8, 1)
unfolding extra_slots
extra_slots_bytes n h = let sum : add_word n 7 / 8 ≡ (n + 7) / 8 = omega arith in rw sum refl

-- The slots of a new object, and its size, in a format that basicNew treats as the class asks.
abbrev pub slots_asked : ℕ → ℕ → ℕ → ℕ
slots_asked format fixed n = if format == 16 then fixed + (n + 7) / 8 else fixed + n

abbrev pub size_asked : ℕ → ℕ → ℕ → ℕ
size_asked format fixed n = if format == 16 then fixed * 8 + n else fixed + n

abbrev pub content_asked : ℕ → ℕ → ℕ
content_asked format nil = if ltb format 9 then nil else 0

module _ (nil : ℕ) (behaviors : ℕ → Behavior) (m : ObjectMemory) (behavior format fixed n : ℕ)
    (is : IsMemory m) (real : behavior ≢ nil)
    (elsewhere : (behavior < m.heap.start + m.heap.size)
      ⊎ (m.heap.start + m.heap.size + 40 ≤ behavior))
    (has_format : decode_format (behaviors behavior).format ≡ format)
    (has_fixed : decode_fixed_size (behaviors behavior).format ≡ fixed) where
  pub basic_new_lem :
      (extra element remaining slots : ℕ)
      → extra_slots format n ≡ (extra, element)
      → sub_word (mul_word extra 8) (mul_word n element) ≡ remaining
      → add_word fixed extra ≡ slots
      → format < 24
      → basic_new nil behaviors m behavior n ≡ (
          instantiate_object m slots
          >>= (λ r. ok (finish behavior (format + remaining) slots (content_asked format nil) r)))
  unfolding basic_new
  basic_new_lem extra element remaining slots e p q plain =
      let test : leb 24 format ≡ false = ground arith in
      rw (has_format, has_fixed, e, p, q, ne→== behavior nil real, test)

  -- From the instantiation to basicNew.
  from_instantiation :
      (extra element remaining slots size : ℕ)
      → extra_slots format n ≡ (extra, element)
      → sub_word (mul_word extra 8) (mul_word n element) ≡ remaining
      → add_word fixed extra ≡ slots
      → (format + remaining) % 32 < 24
      → format < 24
      → size + format_extra_size ((format + remaining) % 32)
        ≡ slots * format_multiplier ((format + remaining) % 32)
      → m.heap.start + m.heap.size + slots * 8 + 5000 < 2 ^ 64
      → Returns
          (basic_new nil behaviors m behavior n)
          (IsInstance m behavior size slots (content_asked format nil))
  from_instantiation extra element remaining slots size e p q in_range plain sum room =
      let (r, run, made) =
        instantiate_finish m behavior slots is room elsewhere (format + remaining)
          (content_asked format nil) size in_range sum in
      (r, basic_new_lem extra element remaining slots e p q plain ∙ run, made)

module _ (nil : ℕ) (behaviors : ℕ → Behavior) (m : ObjectMemory) (behavior format fixed n : ℕ)
    (is : IsMemory m) (real : behavior ≢ nil)
    (elsewhere : (behavior < m.heap.start + m.heap.size)
      ⊎ (m.heap.start + m.heap.size + 40 ≤ behavior))
    (has_format : decode_format (behaviors behavior).format ≡ format)
    (has_fixed : decode_fixed_size (behaviors behavior).format ≡ fixed) where
  -- In the formats of pointers, of 64-bit words and of bytes, for a behavior that is not nil and
  -- not in the free part of the heap, and while the heap stays below 2 ^ 64, basicNew returns an
  -- instance of the behavior: its size is the fixed slots and what was asked for, its slots hold
  -- nil, or 0 in the raw formats, and nothing else in memory has changed.
  pub basic_new-IsInstance :
      (format ≤ 9) ⊎ (format ≡ 16)
      → m.heap.start + m.heap.size + fixed * 8 + n * 8 + 6000 < 2 ^ 64
      → Returns (basic_new nil behaviors m behavior n) (
          IsInstance m behavior
            (size_asked format fixed n)
            (slots_asked format fixed n)
            (content_asked format nil))
  basic_new-IsInstance (inl words) room =
      let other : (format == 16) ≡ false = ground arith in
      rw other (
        from_instantiation nil behaviors m behavior format fixed n is real elsewhere has_format
          has_fixed n 8 0 (fixed + n) (fixed + n) (extra_slots_words format n words) (omega arith)
          (omega arith) (omega arith) (omega arith) (word_padding format (fixed + n) words)
          (omega arith))
  basic_new-IsInstance (inr bytes) room =
      let same : (format == 16) ≡ true = ground arith in
      let padding : ((n + 7) / 8 * 8 - n ≤ 7) = omega arith in
      rw same (
        from_instantiation nil behaviors m behavior format fixed n is real elsewhere has_format
          has_fixed ((n + 7) / 8) 1 ((n + 7) / 8 * 8 - n) (fixed + (n + 7) / 8) (fixed * 8 + n)
          (rw bytes (extra_slots_bytes n (omega arith))) (omega arith) (omega arith) (omega arith)
          (omega arith) (rw bytes (byte_padding fixed n)) (omega arith))
