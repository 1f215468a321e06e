-- ===== src/Routing/QueryId/Kill.antt =====
-- KILL QUERY statements.
use trino_goway.Base.{
  ℕ, ◌≡◌, refl, Bool, true, false, Option, none, some, [], ◌∷◌, ◌++◌, arith, Text, codes, All,
  is_empty, upper_byte, map, Option-cases, inl, inr, Bool-cases,
}
use trino_goway.Routing.QueryId.{
  match_word, is_blank, is_digit, is_word, span, some_of, expect, match_id, kill_at,
  extract_kill_query_id, ◌>>=◌,
}

-- A run of bytes of a class, one at least.
pub record IsRun (p : ℕ → Bool) (s : Text) : Type 0 where
  pub bytes : All (λ c. p c ≡ true) s
  pub some_byte : is_empty s ≡ false

-- `<digits>_<digits>_<digits>_<word>`
abbrev pub query_id : Text → Text → Text → Text → Text
query_id a b c d = a ++ (b'_' ∷ (b ++ (b'_' ∷ (c ++ (b'_' ∷ d)))))

span-run :
    (p : ℕ → Bool) (xs : Text) (c : ℕ) (s : Text)
    → All (λ c. p c ≡ true) xs
    → p c ≡ false
    → span p (xs ++ (c ∷ s)) ≡ (xs, c ∷ s)
unfolding span
span-run p [] c s h k = rw k
span-run p (x ∷ xs) c s h k = rw h.0 (rw (span-run p xs c s h.1 k))

some_of-run :
    (p : ℕ → Bool) (xs : Text) (c : ℕ) (s : Text)
    → IsRun p xs
    → p c ≡ false
    → some_of p (xs ++ (c ∷ s)) ≡ some (xs, c ∷ s)
some_of-run p xs c s r k = rw (span-run p xs c s r.bytes k) (rw r.some_byte)

match_word-word : (w s : Text) → match_word (map upper_byte w) (w ++ s) ≡ some s
unfolding match_word
match_word-word [] s = refl
match_word-word (c ∷ w) s = ground (arith, match_word-word w s)

match_id-id :
    (a b c d s : Text)
    → IsRun is_digit a
    → IsRun is_digit b
    → IsRun is_digit c
    → IsRun is_word d
    → match_id (a ++ (b'_' ∷ (b ++ (b'_' ∷ (c ++ (b'_' ∷ (d ++ (39 ∷ s))))))))
      ≡ some (query_id a b c d)
unfolding match_id
match_id-id a b c d s ha hb hc hd =
    rw (some_of-run is_digit a b'_' (b ++ (b'_' ∷ (c ++ (b'_' ∷ (d ++ (39 ∷ s)))))) ha refl) (
      rw (some_of-run is_digit b b'_' (c ++ (b'_' ∷ (d ++ (39 ∷ s)))) hb refl) (
        rw (some_of-run is_digit c b'_' (d ++ (39 ∷ s)) hc refl)
          (rw (some_of-run is_word d 39 s hd refl))))

kill_at-kill :
    (w x y s : Text)
    → map upper_byte w ≡ codes "KILL"
    → IsRun is_blank x
    → map upper_byte y ≡ codes "QUERY"
    → (z a b c d : Text) → IsRun is_blank z
    → IsRun is_digit a
    → IsRun is_digit b
    → IsRun is_digit c
    → IsRun is_word d
    → kill_at (
        w
        ++ (x
            ++ (y
                ++ (z ++ (39 ∷ (a ++ (b'_' ∷ (b ++ (b'_' ∷ (c ++ (b'_' ∷ (d ++ (39 ∷ s)))))))))))))
      ≡ some (query_id a b c d)
unfolding kill_at
kill_at-kill w x [] s ew hx ey z a b c d hz ha hb hc hd = cc
kill_at-kill w x (q ∷ y) s ew hx ey z a b c d hz ha hb hc hd =
    let tail = a ++ (b'_' ∷ (b ++ (b'_' ∷ (c ++ (b'_' ∷ (d ++ (39 ∷ s))))))) in
    rw (← ew) (
      rw (match_word-word w (x ++ ((q ∷ y) ++ (z ++ (39 ∷ tail))))) (
        rw (some_of-run is_blank x q (y ++ (z ++ (39 ∷ tail))) hx (ground arith)) (
          rw (← ey) (
            rw (match_word-word (q ∷ y) (z ++ (39 ∷ tail)))
              (rw (some_of-run is_blank z 39 tail hz refl) (match_id-id a b c d s ha hb hc hd))))))

-- A body that begins with KILL QUERY and a quoted query id, in any letter case and with any blanks
-- between the words, yields that id, whatever follows.
pub extract_kill_query_id-kill :
    (w x y z a b c d s : Text)
    → map upper_byte w ≡ codes "KILL"
    → IsRun is_blank x
    → map upper_byte y ≡ codes "QUERY"
    → IsRun is_blank z
    → IsRun is_digit a
    → IsRun is_digit b
    → IsRun is_digit c
    → IsRun is_word d
    → extract_kill_query_id (
        w
        ++ (x
            ++ (y
                ++ (z ++ (39 ∷ (a ++ (b'_' ∷ (b ++ (b'_' ∷ (c ++ (b'_' ∷ (d ++ (39 ∷ s)))))))))))))
      ≡ query_id a b c d
unfolding extract_kill_query_id
extract_kill_query_id-kill [] x y z a b c d s ew hx ey hz ha hb hc hd = cc
extract_kill_query_id-kill (k ∷ w) x y z a b c d s ew hx ey hz ha hb hc hd =
    rw (kill_at-kill (k ∷ w) x y s ew hx ey z a b c d hz ha hb hc hd, extract_kill_query_id)

-- The text is a query id.
pub record IsQueryId (id : Text) : Type 0 where
  pub a : Text
  pub b : Text
  pub c : Text
  pub d : Text
  pub date : IsRun is_digit a
  pub time : IsRun is_digit b
  pub number : IsRun is_digit c
  pub suffix : IsRun is_word d
  pub whole : id ≡ query_id a b c d

>>=-eq-some {ℓ κ} :
    {A : Type ℓ} {B : Type κ} (m : Option A) (f : A → Option B) {b : B}
    → (m >>= f) ≡ some b
    → (a : A) × (m ≡ some a) × (f a ≡ some b)
>>=-eq-some none f h = cc
>>=-eq-some (some a) f h = (a, refl, h)

bytes-span : (p : ℕ → Bool) (s : Text) → All (λ c. p c ≡ true) (span p s).0
unfolding span
bytes-span p [] = tt
bytes-span p (c ∷ s) = elim (Bool-cases (p c)) [
  | inl e ↦ rw e (e, bytes-span p s)
  | inr e ↦ rw e tt
]

some_of-IsRun : (p : ℕ → Bool) (s : Text) {x r : Text} → some_of p s ≡ some (x, r) → IsRun p x
some_of-IsRun p s {x} {r} h = elim (Bool-cases (is_empty (span p s).0)) [
  | inl e ↦ ground arith
  | inr e ↦
      let q : (span p s).0 ≡ x = ground arith in
      rw (← q) (record { bytes = bytes-span p s; some_byte = e })
]

some_inv : {x y : Text} → some x ≡ some y → y ≡ x
some_inv h = cc

match_id-IsQueryId : (s : Text) {id : Text} → match_id s ≡ some id → IsQueryId id
unfolding match_id
match_id-IsQueryId s h =
    let ((a, s1), ea, h1) = >>=-eq-some (some_of is_digit s) _ h in
    let (s2, e2, h2) = >>=-eq-some (expect b'_' s1) _ h1 in
    let ((b, s3), eb, h3) = >>=-eq-some (some_of is_digit s2) _ h2 in
    let (s4, e4, h4) = >>=-eq-some (expect b'_' s3) _ h3 in
    let ((c, s5), ec, h5) = >>=-eq-some (some_of is_digit s4) _ h4 in
    let (s6, e6, h6) = >>=-eq-some (expect b'_' s5) _ h5 in
    let ((d, s7), ed, h7) = >>=-eq-some (some_of is_word s6) _ h6 in
    let (s8, e8, h8) = >>=-eq-some (expect 39 s7) _ h7 in
    record {
      a = a;
      b = b;
      c = c;
      d = d;
      date = some_of-IsRun is_digit s ea;
      time = some_of-IsRun is_digit s2 eb;
      number = some_of-IsRun is_digit s4 ec;
      suffix = some_of-IsRun is_word s6 ed;
      whole = some_inv h8;
    }

kill_at-IsQueryId : (s : Text) {id : Text} → kill_at s ≡ some id → IsQueryId id
unfolding kill_at
kill_at-IsQueryId s h =
    let (s1, e1, h1) = >>=-eq-some (match_word (codes "KILL") s) _ h in
    let ((x, s2), e2, h2) = >>=-eq-some (some_of is_blank s1) _ h1 in
    let (s3, e3, h3) = >>=-eq-some (match_word (codes "QUERY") s2) _ h2 in
    let ((z, s4), e4, h4) = >>=-eq-some (some_of is_blank s3) _ h3 in
    let (s5, e5, h5) = >>=-eq-some (expect 39 s4) _ h4 in match_id-IsQueryId s5 h5

-- Whatever the body, an id taken from it has the form of a query id.
pub extract_kill_query_id-IsQueryId :
    (body : Text)
    → is_empty (extract_kill_query_id body) ≡ false
    → IsQueryId (extract_kill_query_id body)
unfolding extract_kill_query_id
extract_kill_query_id-IsQueryId [] h = cc
extract_kill_query_id-IsQueryId (c ∷ s) h =
    let found : is_empty (extract_kill_query_id (c ∷ s)) ≡ false
        → IsQueryId (extract_kill_query_id (c ∷ s)) =
      elim (Option-cases (kill_at (c ∷ s))) [
        | inl e ↦ rw (e, extract_kill_query_id) (extract_kill_query_id-IsQueryId s)
        | inr (id, e) ↦ rw (e, extract_kill_query_id) (λ k. kill_at-IsQueryId (c ∷ s) e)
      ] in
    found h
