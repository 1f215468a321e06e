-- ===== src/MigrateConfig/Output.antt =====
-- The sizes that cmd/goway-migrate-config/output.go writes, and how the gateway reads them. fmt's %d, the
-- pattern of a size and strconv.ParseFloat are parameters.
use trino_goway.Base.{
  ℕ, ◌*◌, ◌/◌, ◌%◌, ◌^◌, ◌<◌, ◌≡◌, refl, ap, ◌∙◌, Bool, true, ltb, not, ◌&&◌, ◌==◌, Option, some,
  List, [], ◌∷◌, ◌++◌, arith, if◌then◌else◌, Text, codes, contains, text_eq, trim_space, ℤ, pos,
  negsuc, Bool-cases, inl, inr,
}
use trino_goway.Settings.Checks.{multiplier, data_size}

-- b >= unit && b % unit == 0, for a unit that is a number
abbrev pub is_whole : ℕ → ℕ → Bool
is_whole unit b = not (ltb b unit) && (b % unit == 0)

-- formatBytes
unfoldable pub format_bytes : (ℤ → Text) → ℤ → Text
format_bytes print (negsuc n) = print (negsuc n) ++ codes "B"
format_bytes print (pos b) =
    if is_whole 1073741824 b
    then print (pos (b / 1073741824)) ++ codes "GiB"
    else if is_whole 1048576 b
    then print (pos (b / 1048576)) ++ codes "MiB"
    else if is_whole 1024 b
    then print (pos (b / 1024)) ++ codes "KiB"
    else print (pos b) ++ codes "B"

abbrev pub units : List Text
units = codes "B" ∷ codes "KiB" ∷ codes "MiB" ∷ codes "GiB" ∷ []

-- The pattern finds the digits and the unit that were written one after the other.
abbrev pub IsFound : (ℤ → Text) → (Text → Option (Text × Text)) → Type 0
IsFound print find =
    (n : ℕ) (u : Text)
    → contains units u ≡ true
    → find (trim_space (print (pos n) ++ u)) ≡ some (print (pos n), u)

-- The digits of a whole number are read exactly while its product is below 2 ^ 53.
abbrev pub IsExact : (ℤ → Text) → (Text → Option (ℕ → ℤ)) → Type 0
IsExact print parse =
    (n m : ℕ)
    → n * m < 2 ^ 53
    → (times : ℕ → ℤ) × (parse (print (pos n)) ≡ some times) × (times m ≡ pos (n * m))

module _ (print : ℤ → Text) (find : Text → Option (Text × Text)) (parse : Text → Option (ℕ → ℤ))
    (found : IsFound print find) (exact : IsExact print parse) where
  read_back :
      (n m : ℕ) (u : Text)
      → contains units u ≡ true
      → multiplier u ≡ some m
      → n * m < 2 ^ 53
      → data_size find parse (print (pos n) ++ u) ≡ some (pos (n * m))
  unfolding data_size
  read_back n m u h k l =
      let (times, e, t) = exact n m l in rw (found n u h, data_size, e, k, t) refl

  read_whole :
      (b m : ℕ) (u : Text)
      → contains units u ≡ true
      → multiplier u ≡ some m
      → b / m * m ≡ b
      → b < 2 ^ 53
      → data_size find parse (print (pos (b / m)) ++ u) ≡ some (pos b)
  read_whole b m u h k e l = read_back (b / m) m u h k (rw (e) l) ∙ ap (λ x. some (pos x)) e

  -- A size below 2 ^ 53 that was written is read back as it was.
  pub data_size-format_bytes :
      (b : ℕ) → b < 2 ^ 53 → data_size find parse (format_bytes print (pos b)) ≡ some (pos b)
  unfolding format_bytes contains multiplier text_eq
  data_size-format_bytes b l = elim (Bool-cases (is_whole 1073741824 b)) [
    | inl g ↦ rw (g) (read_whole b 1073741824 (codes "GiB") refl refl (ground arith) l)
    | inr g ↦ elim (Bool-cases (is_whole 1048576 b)) [
      | inl m ↦ rw (g, m) (read_whole b 1048576 (codes "MiB") refl refl (ground arith) l)
      | inr m ↦ elim (Bool-cases (is_whole 1024 b)) [
        | inl k ↦ rw (g, m, k) (read_whole b 1024 (codes "KiB") refl refl (ground arith) l)
        | inr k ↦
            rw (g, m, k)
              (read_back b 1 (codes "B") refl refl (ground arith)
                ∙ ap (λ x. some (pos x)) (ground arith))
      ]
    ]
  ]
