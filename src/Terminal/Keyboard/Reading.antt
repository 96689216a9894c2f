-- ===== src/Terminal/Keyboard/Reading.antt =====
-- What `keyboard_read` of kernel/keyboard.c makes of scan codes.
use mini_operate_system.Prelude.{
  ℕ, ◌+◌, ◌*◌, ◌≡◌, refl, subst, ◌⊎◌, inl, inr, arith, Bool, true, false, ◌==◌, ltb, if◌then◌else◌,
  Option, none, some, List, [], ◌∷◌, Bool-cases, Option-cases, ◌>>=◌,
}
use mini_operate_system.Terminal.Ring.{kb_in_bytes, put, take}
use mini_operate_system.Terminal.Keyboard.{
  Keyboard, bit, set_leds, get_byte_from_kbuf, matches, print_screen, read_prefix, latch, decode,
  keyboard_read,
}

-- The keyboard's lights show the three locks.
abbrev pub IsLit : Keyboard → Type 0
IsLit k = k.leds ≡ bit k.caps_lock * 4 + bit k.num_lock * 2 + bit k.scroll_lock

-- If the read ends, the lights show the locks.
abbrev Lit : {A : Type 0} → (A → Keyboard) → Option A → Type 0
Lit f none = Unit {0}
Lit f (some a) = IsLit (f a)

Lit-bind :
    {A B : Type 0} (f : A → Keyboard) (g : B → Keyboard) (o : Option A) (h : A → Option B)
    → Lit f o
    → ((a : A) → IsLit (f a) → Lit g (h a))
    → Lit g (o >>= h)
Lit-bind f g none h v w = tt
Lit-bind f g (some a) h v w = w a v

latch-IsLit : (key : ℕ) (make : Bool) (k : Keyboard) → IsLit k → IsLit (latch key make k)
unfolding latch set_leds
latch-IsLit key make k v = ground arith

abbrev second : {A : Type 0} → A × Keyboard → Keyboard
second p = p.1

abbrev third : ℕ × ℕ × Keyboard → Keyboard
third p = p.2

abbrev after : Option ℕ × Keyboard → Keyboard
after p = p.1

List-cases : (l : List ℕ) → (l ≡ []) ⊎ ((x : ℕ) × (xs : List ℕ) × (l ≡ x ∷ xs))
List-cases [] = inl refl
List-cases (x ∷ xs) = inr (x, xs, refl)

get_byte-Lit : (k : Keyboard) → IsLit k → Lit second (get_byte_from_kbuf k)
unfolding get_byte_from_kbuf
get_byte-Lit k v = elim (Option-cases (take kb_in_bytes k.kb_in)) [
  | inr ((x, r), e) ↦ rw (get_byte_from_kbuf, e) v
  | inl empty ↦ elim (List-cases k.incoming) [
    | inl nothing ↦ rw (get_byte_from_kbuf, empty, nothing) tt
    | inr (x, xs, more) ↦ elim (Option-cases (take kb_in_bytes (put kb_in_bytes k.kb_in x))) [
      | inl lost ↦ rw (get_byte_from_kbuf, empty, more, lost) tt
      | inr ((y, r), e) ↦ rw (get_byte_from_kbuf, empty, more, e) v
    ]
  ]
]

matches-Lit : (l : List ℕ) (k : Keyboard) → IsLit k → Lit second (matches l k)
unfolding matches
matches-Lit [] k v = v
matches-Lit (x ∷ xs) k v =
    Lit-bind second second (get_byte_from_kbuf k) _ (get_byte-Lit k v) (λ p w.
      elim (Bool-cases (p.0 == x)) [
        | inl same ↦ rw (same) (matches-Lit xs p.1 w)
        | inr other ↦ rw (other) w
      ])

print_screen-Lit : (last : ℕ) (k : Keyboard) → IsLit k → Lit second (print_screen last k)
print_screen-Lit last k v =
    Lit-bind second second (get_byte_from_kbuf k) _ (get_byte-Lit k v) (λ p w.
      elim (Bool-cases (p.0 == 0xE0)) [
        | inl same ↦
            rw (same)
              (Lit-bind second second (get_byte_from_kbuf p.1) _ (get_byte-Lit p.1 w) (λ q u. u))
        | inr other ↦ rw (other) w
      ])

either :
    {A : Type 0} (f : A → Keyboard) (b : Bool) (o o' : Option A)
    → Lit f o
    → Lit f o'
    → Lit f (if b then o else o')
either f true o o' p q = p
either f false o o' p q = q

light :
    (b : Bool) (k : Keyboard) → IsLit k → IsLit (if b then record k { code_with_e0 = true } else k)
light true k v = v
light false k v = v

read_prefix-Lit : (scan_code : ℕ) (k : Keyboard) → IsLit k → Lit third (read_prefix scan_code k)
unfolding read_prefix
read_prefix-Lit scan_code k v = elim (Bool-cases (scan_code == 0xE1)) [
  | inl pause ↦
      rw (read_prefix, pause)
        (Lit-bind second third (matches (0x1D ∷ 0x45 ∷ 0xE1 ∷ 0x9D ∷ 0xC5 ∷ []) k) _
          (matches-Lit _ k v) (λ p w. w))
  | inr ne ↦ elim (Bool-cases (scan_code == 0xE0)) [
    | inr other ↦ rw (read_prefix, ne, other) v
    | inl prefix ↦
        rw (read_prefix, ne, prefix)
          (Lit-bind second third (get_byte_from_kbuf k) _ (get_byte-Lit k v) (λ p w.
            Lit-bind second third _ _
              (either second (p.0 == 0x2A) _ _ (print_screen-Lit 0x37 p.1 w)
                (either second (p.0 == 0xB7) _ _ (print_screen-Lit 0xAA p.1 w) w))
              (λ q u. light (q.0 == 0) q.1 u)))
  ]
]

decode-IsLit : (scan_code : ℕ) (k : Keyboard) → IsLit k → IsLit (decode scan_code k).1
unfolding decode
decode-IsLit scan_code k v = latch-IsLit _ _ (record k { code_with_e0 = false }) v

choose-IsLit :
    (b : Bool) (p q : Option ℕ × Keyboard) → IsLit p.1 → IsLit q.1 → IsLit (if b then p else q).1
choose-IsLit true p q v w = v
choose-IsLit false p q v w = w

keyboard_read-Lit : (k : Keyboard) → IsLit k → Lit after (keyboard_read k)
unfolding keyboard_read
keyboard_read-Lit k v = elim (Bool-cases (ltb 0 k.kb_in.count)) [
  | inr empty ↦ rw (keyboard_read, empty) v
  | inl some_byte ↦
      rw (keyboard_read, some_byte)
        (Lit-bind second after (get_byte_from_kbuf k) _ (get_byte-Lit k v) (λ p w.
          Lit-bind third after (read_prefix p.0 p.1) _ (read_prefix-Lit p.0 p.1 w)
            (λ q u. choose-IsLit _ _ _ u (decode-IsLit q.1 q.2 u))))
]

-- Reading the keyboard keeps its lights in step with the locks, whatever the scan codes are, if the
-- read gets those that it waits for.
pub keyboard_read-IsLit :
    (k k' : Keyboard) (key : Option ℕ) → IsLit k → keyboard_read k ≡ some (key, k') → IsLit k'
keyboard_read-IsLit k k' key v e = subst (Lit after) e (keyboard_read-Lit k v)
