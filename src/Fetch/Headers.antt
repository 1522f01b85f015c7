-- ===== src/Fetch/Headers.antt =====
-- Which headers src/intrinsics/fetch.rs sends.
use mathlib.Core.Path.{fun_ext}
use serverlessd.Prelude.{
  ◌≡◌, refl, ap, ◌∙◌, List, [], ◌∷◌, Option, none, some, returns, panics, undefined, hangs, ok, err,
  if◌then◌else◌, Bool-cases, inl, inr,
}
use serverlessd.Fetch.{mapped, ◌>>=◌, Js, Http, Step, pure, read_header, collect_headers}

module _ (js : Js) (http : Http) where
  open js use {Value}
  open http use {
    HeaderName, name_eq, HeaderValue, HeaderMap, new_map, insert, lookup, lookup-new_map,
    lookup-insert,
  }

  -- The headers by themselves, in the order of their names.
  pub header_pairs : Value → List (Option Value) → Step js http (List (HeaderName × HeaderValue))
  header_pairs headers [] = pure js http []
  header_pairs headers (none ∷ keys) = header_pairs headers keys
  header_pairs headers (some key ∷ keys) =
      ◌>>=◌ js http (read_header js http headers key)
        λ pair. ◌>>=◌ js http (header_pairs headers keys) λ pairs. pure js http (pair ∷ pairs)

  abbrev pub or_else : Option HeaderValue → Option HeaderValue → Option HeaderValue
  or_else none o = o
  or_else (some v) o = some v

  -- The value that stands last under a name.
  abbrev pub last_value : HeaderName → List (HeaderName × HeaderValue) → Option HeaderValue
  last_value n [] = none
  last_value n ((k, v) ∷ pairs) =
      or_else (last_value n pairs) (if name_eq n k then some v else none)

  or_else-last :
      (n k : HeaderName) (v : HeaderValue) (m : HeaderMap) (o : Option HeaderValue)
      → or_else o (lookup n (insert k v m))
        ≡ or_else (or_else o (if name_eq n k then some v else none)) (lookup n m)
  or_else-last n k v m (some w) = refl
  or_else-last n k v m none = elim (Bool-cases (name_eq n k)) [
    | inl same ↦ rw (lookup-insert, same)
    | inr other ↦ rw (lookup-insert, other)
  ]

  -- One more pair in front, whatever reading the others comes to.
  front_pair :
      (n k : HeaderName) (v : HeaderValue) (m : HeaderMap)
      (read : Step js http (List (HeaderName × HeaderValue)))
      → ◌>>=◌ js http read
          (λ ps. pure js http (or_else (last_value n ps) (lookup n (insert k v m))))
        ≡ ◌>>=◌ js http
            (◌>>=◌ js http read (λ ps. pure js http ((k, v) ∷ ps)))
            (λ ps. pure js http (or_else (last_value n ps) (lookup n m)))
  front_pair n k v m (returns (ok ps)) =
      ap (λ o. returns (ok o)) (or_else-last n k v m (last_value n ps))
  front_pair n k v m (returns (err r)) = refl
  front_pair n k v m panics = refl
  front_pair n k v m undefined = refl
  front_pair n k v m hangs = refl

  after_read :
      (headers : Value) (keys : List (Option Value)) (n : HeaderName) (m : HeaderMap)
      (read : Step js http (HeaderName × HeaderValue))
      → ((k : HeaderName) (v : HeaderValue)
          → ◌>>=◌ js http
              (collect_headers js http headers keys (insert k v m))
              (λ m'. pure js http (lookup n m'))
            ≡ ◌>>=◌ js http
                (header_pairs headers keys)
                (λ ps. pure js http (or_else (last_value n ps) (lookup n (insert k v m)))))
      → ◌>>=◌ js http
          (◌>>=◌ js http read (λ (k, v). collect_headers js http headers keys (insert k v m)))
          (λ m'. pure js http (lookup n m'))
        ≡ ◌>>=◌ js http
            (◌>>=◌ js http read
              λ pair. ◌>>=◌ js http (header_pairs headers keys) λ ps. pure js http (pair ∷ ps))
            (λ ps. pure js http (or_else (last_value n ps) (lookup n m)))
  after_read headers keys n m (returns (ok (k, v))) rest =
      rest k v ∙ front_pair n k v m (header_pairs headers keys)
  after_read headers keys n m (returns (err r)) rest = refl
  after_read headers keys n m panics rest = refl
  after_read headers keys n m undefined rest = refl
  after_read headers keys n m hangs rest = refl

  collect_headers-lookup :
      (headers : Value) (keys : List (Option Value)) (n : HeaderName) (m : HeaderMap)
      → ◌>>=◌ js http (collect_headers js http headers keys m) (λ m'. pure js http (lookup n m'))
        ≡ ◌>>=◌ js http
            (header_pairs headers keys)
            (λ ps. pure js http (or_else (last_value n ps) (lookup n m)))
  unfolding collect_headers header_pairs
  collect_headers-lookup headers [] n m = refl
  collect_headers-lookup headers (none ∷ keys) n m = collect_headers-lookup headers keys n m
  collect_headers-lookup headers (some key ∷ keys) n m =
      after_read headers keys n m (read_header js http headers key)
        (λ k v. collect_headers-lookup headers keys n (insert k v m))

  or_else-none : (o p : Option HeaderValue) → p ≡ none → or_else o p ≡ o
  or_else-none none p e = e
  or_else-none (some v) p e = refl

  -- The loop over the names of the headers stops exactly where one of them cannot be read, in the
  -- same way; otherwise, under each name, the map holds the value that comes last under it.
  pub collect_headers-last :
      (headers : Value) (keys : List (Option Value)) (n : HeaderName)
      → mapped js http (lookup n) (collect_headers js http headers keys new_map)
        ≡ mapped js http (last_value n) (header_pairs headers keys)
  collect_headers-last headers keys n =
      collect_headers-lookup headers keys n new_map
      ∙ ap (λ f. mapped js http f (header_pairs headers keys))
          (fun_ext
            (λ pairs. or_else-none (last_value n pairs) (lookup n new_map) (lookup-new_map n)))
