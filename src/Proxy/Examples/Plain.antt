-- ===== src/Proxy/Examples/Plain.antt =====
-- A codec to run the cookies of internal/proxy with: each part is written with its length before it,
-- and the MAC is the secret with the backend behind it.
use trino_goway.Base.{
  ◌≡◌, refl, ℕ, zero, suc, Bool, Option, none, some, List, [], ◌∷◌, ◌++◌, arith, Text, length, take,
  drop,
}
use trino_goway.Routing.QueryId.{◌>>=◌}
use trino_goway.Proxy.Cookie.{Codec, GatewayCookie}

abbrev put_text : Text → Text → Text
put_text t r = length t ∷ (t ++ r)

abbrev get_text : Text → Option (Text × Text)
get_text [] = none
get_text (n ∷ s) = some (take n s, drop n s)

take-append : (t r : Text) → take (length t) (t ++ r) ≡ t
take-append [] r = refl
take-append (a ∷ t) r = ground (arith, take-append t r)

drop-append : (t r : Text) → drop (length t) (t ++ r) ≡ r
drop-append [] r = refl
drop-append (a ∷ t) r = ground (arith, drop-append t r)

get_text-put_text : (t r : Text) → get_text (put_text t r) ≡ some (t, r)
get_text-put_text t r = rw (take-append t r, drop-append t r) refl

abbrev put_texts : List Text → Text → Text
put_texts [] r = r
put_texts (t ∷ ts) r = put_text t (put_texts ts r)

abbrev count : List Text → ℕ
count [] = 0
count (t ∷ ts) = suc (count ts)

unfoldable pub get_texts : ℕ → Text → Option (List Text × Text)
get_texts zero s = some ([], s)
get_texts (suc n) s = do (t, s) ← get_text s; (ts, s) ← get_texts n s; some (t ∷ ts, s)

get_texts-put_texts :
    (ts : List Text) (r : Text) → get_texts (count ts) (put_texts ts r) ≡ some (ts, r)
unfolding get_texts
get_texts-put_texts [] r = refl
get_texts-put_texts (t ∷ ts) r =
    rw (take-append t (put_texts ts r), drop-append t (put_texts ts r), get_texts-put_texts ts r)
      refl

abbrev of_option : Option Text → Text
of_option none = []
of_option (some t) = 0 ∷ t

abbrev to_option : Text → Option Text
to_option [] = none
to_option (a ∷ t) = some t

abbrev to_number : Text → ℕ
to_number [] = 0
to_number (n ∷ t) = n

abbrev part : ℕ → List Text → Text
part n [] = []
part zero (t ∷ ts) = t
part (suc n) (t ∷ ts) = part n ts

abbrev parts : GatewayCookie → List Text
parts c =
    of_option c.unsigned.backend
    ∷ c.unsigned.name
    ∷ of_option c.unsigned.payload
    ∷ (c.unsigned.priority ∷ [])
    ∷ (c.unsigned.ts ∷ [])
    ∷ c.unsigned.ttl
    ∷ c.signature
    ∷ (count c.unsigned.delete_paths ∷ [])
    ∷ (count c.unsigned.routing_paths ∷ [])
    ∷ []

abbrev of_parts : List Text → List Text → List Text → GatewayCookie
of_parts ts ds rs = record {
  unsigned = record {
    backend = to_option (part 0 ts);
    delete_paths = ds;
    name = part 1 ts;
    payload = to_option (part 2 ts);
    priority = to_number (part 3 ts);
    routing_paths = rs;
    ts = to_number (part 4 ts);
    ttl = part 5 ts;
  };
  signature = part 6 ts;
}

abbrev encode : Bool → GatewayCookie → Text
encode wire c =
    put_texts (parts c) (put_texts c.unsigned.delete_paths (put_texts c.unsigned.routing_paths []))

unfoldable pub decode : Bool → Text → Option GatewayCookie
unfolding get_texts
decode wire s = do
  (ts, s) ← get_texts 9 s
  (ds, s) ← get_texts (to_number (part 7 ts)) s
  (rs, s) ← get_texts (to_number (part 8 ts)) s
  some (of_parts ts ds rs)

to_option-of_option : (o : Option Text) → to_option (of_option o) ≡ o
to_option-of_option none = refl
to_option-of_option (some t) = refl

pub decode-encode : (wire : Bool) (c : GatewayCookie) → decode wire (encode wire c) ≡ some c
unfolding decode
decode-encode wire c =
    rw
      (
        get_texts-put_texts (parts c)
            (put_texts c.unsigned.delete_paths (put_texts c.unsigned.routing_paths [])),
        get_texts-put_texts c.unsigned.delete_paths (put_texts c.unsigned.routing_paths []),
        get_texts-put_texts c.unsigned.routing_paths [],
        to_option-of_option c.unsigned.backend,
        to_option-of_option c.unsigned.payload,
      )
      refl

abbrev pub plain : Codec
plain = record {
  mac = λ secret c. secret ++ of_option c.backend;
  encode = encode;
  decode = decode;
  decode-encode = decode-encode;
  format_ttl = λ wire n. n ∷ [];
  parse_ttl = to_number;
}
