-- ===== src/Storage/Slotted/Grow.antt =====
-- Putting a row at a slot of one's choice, past the end of the directory too.
use chibidb.Prelude.{
  ℕ, zero, suc, ◌+◌, ◌-◌, ◌*◌, ◌%◌, ◌≤◌, ◌<◌, ◌≡◌, ◌⊎◌, inl, inr, refl, sym, subst, ◌∙◌, true,
  false, ltb, leb, ◌==◌, ◌&&◌, if◌then◌else◌, ℕ_discrete, List, [], ◌∷◌, length, length-set, get_or,
  set, get_or-set_self, get_or-set_ne, get_or_beyond, Bool-cases, arith,
}
use chibidb.Storage.Slotted.{
  header_size, slot_size, Page, read_u16, write_u16, num_slots, set_num_slots, set_free_upper,
  free_upper, set_slot, copy_at, clear_bytes,
}
use chibidb.Storage.Slotted.Bytes.{
  length-write_u16, length-copy_at, read-write_u16, read_u16-copy_at,
}
use chibidb.Storage.Slotted.Layout.{IsValid}

pub length-clear_bytes :
    (grow : ℕ) (p : Page) (from : ℕ) → length (clear_bytes grow p from) ≡ length p
unfolding clear_bytes
length-clear_bytes zero p from = refl
length-clear_bytes (suc grow) p from =
    length-clear_bytes grow (set p from 0) (from + 1) ∙ length-set p from 0

pub byte-clear_bytes_outside :
    (grow : ℕ) (p : Page) (from i : ℕ)
    → (i < from) ⊎ (from + grow ≤ i)
    → get_or (clear_bytes grow p from) i 0 ≡ get_or p i 0
unfolding clear_bytes
byte-clear_bytes_outside zero p from i h = refl
byte-clear_bytes_outside (suc grow) p from i h =
    byte-clear_bytes_outside grow (set p from 0) (from + 1) i
      (elim h [ inl l ↦ inl (omega arith) | inr r ↦ inr (omega arith) ])
    ∙ get_or-set_ne p from i 0 0 (λ e. elim h [ inl l ↦ omega arith | inr r ↦ omega arith ])

set_zero : (p : Page) (i : ℕ) → get_or (set p i 0) i 0 ≡ 0
set_zero p i = elim (Bool-cases (ltb i (length p))) [
  | inl l ↦ get_or-set_self p i 0 0 (ground arith)
  | inr l ↦ get_or_beyond (set p i 0) i 0 (ground (arith, length-set p i zero))
]

byte-clear_bytes_inside :
    (grow : ℕ) (p : Page) (from i : ℕ)
    → from ≤ i
    → i < from + grow
    → get_or (clear_bytes grow p from) i 0 ≡ 0
unfolding clear_bytes
byte-clear_bytes_inside zero p from i lo hi = absurd (omega arith)
byte-clear_bytes_inside (suc grow) p from i lo hi = elim (ℕ_discrete from i) [
  | yes e ↦
      byte-clear_bytes_outside grow (set p from 0) (from + 1) i (inl (omega arith))
      ∙ subst (λ (x : ℕ). get_or (set p from 0) x 0 ≡ 0) e (set_zero p from)
  | no n ↦ byte-clear_bytes_inside grow (set p from 0) (from + 1) i (omega arith) (omega arith)
]

-- The word at an even place, when the cleared bytes are whole words.
read-clear_bytes :
    (grow : ℕ) (p : Page) (from b : ℕ)
    → from % 2 ≡ 0
    → grow % 2 ≡ 0
    → b % 2 ≡ 0
    → read_u16 (clear_bytes grow p from) b
      ≡ (if leb from b && ltb b (from + grow) then 0 else read_u16 p b)
unfolding read_u16
read-clear_bytes grow p from b ef eg eb = elim (Bool-cases (leb from b && ltb b (from + grow))) [
  | inl h ↦ rw h (zeros h)
  | inr h ↦ rw h (same h)
]
  where
    zeros : (leb from b && ltb b (from + grow)) ≡ true → read_u16 (clear_bytes grow p from) b ≡ 0
    zeros h =
        unfold read_u16 in
        omega (
          arith,
          byte-clear_bytes_inside grow p from b (ground arith) (ground arith),
          byte-clear_bytes_inside grow p from (b + 1) (ground arith) (ground arith),
        )

    outside : (leb from b && ltb b (from + grow)) ≡ false → (b + 1 < from) ⊎ (from + grow ≤ b)
    outside h = elim (Bool-cases (leb from b)) [
      | inl x ↦ inr (ground arith)
      | inr x ↦ inl (ground arith)
    ]

    same :
        (leb from b && ltb b (from + grow)) ≡ false
        → read_u16 (clear_bytes grow p from) b ≡ read_u16 p b
    same h =
        unfold read_u16 in
        omega (
          arith,
          byte-clear_bytes_outside grow p from b
              (elim (outside h) [ inl x ↦ inl (omega arith) | inr x ↦ inr x ]),
          byte-clear_bytes_outside grow p from (b + 1)
              (elim (outside h) [ inl x ↦ inl x | inr x ↦ inr (omega arith) ]),
        )

-- The same bytes copied into two pages that agree at a place agree there.
pub copy_at_same :
    (p q : Page) (off : ℕ) (row : List ℕ) (i : ℕ)
    → length p ≡ length q
    → get_or p i 0 ≡ get_or q i 0
    → get_or (copy_at p off row) i 0 ≡ get_or (copy_at q off row) i 0
unfolding copy_at
copy_at_same p q off [] i l e = e
copy_at_same p q off (b ∷ row) i l e =
    copy_at_same (set p off b) (set q off b) (off + 1) row i
      (length-set p off b ∙ l ∙ sym (length-set q off b)) head
  where
    head : get_or (set p off b) i 0 ≡ get_or (set q off b) i 0
    head = elim (ℕ_discrete off i) [
      | yes s ↦
          subst (λ (x : ℕ). get_or (set p off b) x 0 ≡ get_or (set q off b) x 0) s
            (elim (Bool-cases (ltb off (length p))) [
              | inl h ↦
                  get_or-set_self p off b 0 (ground arith)
                  ∙ sym (get_or-set_self q off b 0 (ground (arith, l)))
              | inr h ↦
                  get_or_beyond (set p off b) off 0 (ground (arith, length-set p off b))
                  ∙ sym (get_or_beyond (set q off b) off 0 (ground (arith, l, length-set q off b)))
            ])
      | no n ↦ get_or-set_ne p off i b 0 n ∙ e ∙ sym (get_or-set_ne q off i b 0 n)
    ]

-- Where the directory of `p` ends, and the bytes up to the end of `slot`.
abbrev pub from : Page → ℕ
from p = header_size + num_slots p * slot_size

abbrev pub gap : Page → ℕ → ℕ
gap p slot = (slot + 1 - num_slots p) * slot_size

-- The page with the directory grown up to `slot`, and the page that `page_put_at` makes of it.
unfoldable pub grown : Page → ℕ → Page
grown p slot = set_num_slots (clear_bytes (gap p slot) p (from p)) slot

unfoldable pub put : Page → ℕ → ℕ → List ℕ → Page
put p slot off row =
    set_free_upper
      (set_slot (set_num_slots (clear_bytes (gap p slot) (copy_at p off row) (from p)) (slot + 1))
        slot off (length row))
      off

module _ (p : Page) (slot off : ℕ) (row : List ℕ) (v : IsValid p) (past : num_slots p ≤ slot)
    (above : header_size + suc slot * slot_size ≤ off)
    (ends : off + length row ≡ free_upper p) where
  pub grown-word :
      (b : ℕ)
      → b % 2 ≡ 0
      → read_u16 (grown p slot) b ≡ (
          if 0 == b
          then slot
          else if leb (from p) b && ltb b (from p + gap p slot)
          then 0
          else read_u16 p b)
  unfolding grown set_num_slots
  grown-word b eb = ground (
    arith,
    read-write_u16 (clear_bytes (gap p slot) p (from p)) 0 slot b refl eb
        (omega (arith, length-clear_bytes (gap p slot) p (from p), v.size)) (omega (arith, v.top)),
    read-clear_bytes (gap p slot) p (from p) b (omega arith) (omega arith) eb,
  )

  pub put-word :
      (b : ℕ)
      → b % 2 ≡ 0
      → b + 2 ≤ off
      → read_u16 (put p slot off row) b ≡ (
          if 2 == b
          then off
          else if header_size + slot * slot_size + 2 == b
          then length row
          else if header_size + slot * slot_size == b
          then off
          else if 0 == b
          then slot + 1
          else if leb (from p) b && ltb b (from p + gap p slot)
          then 0
          else read_u16 p b)
  unfolding put set_num_slots set_free_upper set_slot
  put-word b eb hb =
      let copied = copy_at p off row in
      let cleared = clear_bytes (gap p slot) copied (from p) in
      let counted = write_u16 cleared 0 (slot + 1) in
      let base = header_size + slot * slot_size in
      let placed = write_u16 counted base off in
      let sized = write_u16 placed (base + 2) (length row) in
      let cl =
        length-clear_bytes (gap p slot) copied (from p) ∙ length-copy_at p off row ∙ v.size in
      let nl = length-write_u16 cleared 0 (slot + 1) ∙ cl in
      let pl = length-write_u16 counted base off ∙ nl in
      let sl = length-write_u16 placed (base + 2) (length row) ∙ pl in
      ground (
        arith,
        read-write_u16 sized 2 off b refl eb (omega (arith, sl)) (omega (arith, v.top)),
        read-write_u16 placed (base + 2) (length row) b (omega arith) eb (omega (arith, pl, v.top))
            (omega (arith, v.top)),
        read-write_u16 counted base off b (omega arith) eb (omega (arith, nl, v.top))
            (omega (arith, v.top)),
        read-write_u16 cleared 0 (slot + 1) b refl eb (omega (arith, cl)) (omega (arith, v.top)),
        read-clear_bytes (gap p slot) copied (from p) b (omega arith) (omega arith) eb,
        read_u16-copy_at p off row b hb,
      )
