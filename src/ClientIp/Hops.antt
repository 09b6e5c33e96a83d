-- ===== src/ClientIp/Hops.antt =====
-- backend/app/core/client_ip.py: what a client may write into X-Forwarded-For.
use betpulse.Prelude.{
  ℕ, ◌≡◌, refl, sym, ◌∙◌, ap, Bool, true, false, Option, none, some, List, [], ◌∷◌, ◌++◌, ◌==◌,
  ◌||◌, not, is_empty, arith, Bool-cases, inl, inr,
}
use betpulse.Ingest.Seasons.{Text}
use betpulse.ClientIp.{
  IpLibrary, reversed, split, put_first, parse_ip, parse_hops, is_trusted, walk, hops_of, client_of,
  text_of, resolve_client_ip, parse_peer,
}

append-nil {ℓ} : {A : Type ℓ} (xs : List A) → xs ++ [] ≡ xs
append-nil [] = refl
append-nil (x ∷ xs) = ap (λ l. x ∷ l) (append-nil xs)

append_assoc {ℓ} : {A : Type ℓ} (xs ys zs : List A) → (xs ++ ys) ++ zs ≡ xs ++ (ys ++ zs)
append_assoc [] ys zs = refl
append_assoc (x ∷ xs) ys zs = ap (λ l. x ∷ l) (append_assoc xs ys zs)

reversed-append {ℓ} :
    {A : Type ℓ} (xs ys : List A) → reversed (xs ++ ys) ≡ reversed ys ++ reversed xs
unfolding reversed
reversed-append [] ys = sym (append-nil (reversed ys))
reversed-append (x ∷ xs) ys =
    ap (λ l. l ++ (x ∷ [])) (reversed-append xs ys)
    ∙ append_assoc (reversed ys) (reversed xs) (x ∷ [])

put_first-append :
    (ch : ℕ) (part : Text) (parts others : List Text)
    → put_first ch ((part ∷ parts) ++ others) ≡ put_first ch (part ∷ parts) ++ others
put_first-append ch part parts others = refl

-- A text has at least one part.
split-cons : (text : Text) → (part : Text) × (parts : List Text) × (split text ≡ part ∷ parts)
unfolding split
split-cons [] = ([], [], refl)
split-cons (ch ∷ rest) =
    let (part, parts, e) = split-cons rest in
    elim (Bool-cases (ch == b',')) [
      | inl comma ↦ ([], split rest, ground (arith, comma))
      | inr other ↦ (ch ∷ part, parts, ground (arith, other, e))
    ]

split-append : (left right : Text) → split (left ++ (b',' ∷ right)) ≡ split left ++ split right
unfolding split
split-append [] right = refl
split-append (ch ∷ left) right =
    let (part, parts, e) = split-cons left in
    elim (Bool-cases (ch == b',')) [
      | inl comma ↦ ground (arith, comma, split-append left right)
      | inr other ↦ ground (arith, other, split-append left right, e)
    ]

is_empty-append : (xs ys : Text) → is_empty ys ≡ false → is_empty (xs ++ ys) ≡ false
is_empty-append [] ys h = h
is_empty-append (x ∷ xs) ys h = refl

module _ (l : IpLibrary) where
  open l use {Address, Network}

  -- The walk ends among these hops: one of them is malformed, or is not a trusted proxy.
  abbrev pub stops : List Network → List (Option Address) → Bool
  stops trusted [] = false
  stops trusted (none ∷ hops) = true
  stops trusted (some hop ∷ hops) = not (is_trusted l hop trusted) || stops trusted hops

  walk-append :
      (trusted : List Network) (client : Address) (hops rest : List (Option Address))
      → stops trusted hops ≡ true
      → walk l trusted client (hops ++ rest) ≡ walk l trusted client hops
  unfolding walk
  walk-append trusted client [] rest h = absurd (cc)
  walk-append trusted client (none ∷ hops) rest h = refl
  walk-append trusted client (some hop ∷ hops) rest h =
      elim (Bool-cases (is_trusted l hop trusted)) [
        | inl known ↦
            let further = walk-append trusted hop hops rest (ground (arith, h, known)) in
            ground (arith, known, further)
        | inr other ↦ ground (arith, other)
      ]

  parse_hops-append :
      (xs ys : List Text) → parse_hops l (xs ++ ys) ≡ parse_hops l xs ++ parse_hops l ys
  parse_hops-append [] ys = refl
  parse_hops-append (x ∷ xs) ys = ap (λ hops. parse_ip l x ∷ hops) (parse_hops-append xs ys)

  hops_of-append :
      (left right : Text)
      → hops_of l (some (left ++ (b',' ∷ right))) ≡ hops_of l (some right) ++ hops_of l (some left)
  hops_of-append left right =
      ap (λ parts. parse_hops l (reversed parts)) (split-append left right)
      ∙ ap (λ parts. parse_hops l parts) (reversed-append (split left) (split right))
      ∙ parse_hops-append (reversed (split right)) (reversed (split left))

  client_of-append :
      (left right : Text) (trusted : List Network) (peer : Option Address)
      → is_empty right ≡ false
      → stops trusted (hops_of l (some right)) ≡ true
      → client_of l (some (left ++ (b',' ∷ right))) trusted peer
        ≡ client_of l (some right) trusted peer
  client_of-append left right trusted none given h = refl
  client_of-append left right trusted (some peer) given h =
      let end = walk-append trusted peer (hops_of l (some right)) (hops_of l (some left)) h in
      let hops = ap (walk l trusted peer) (hops_of-append left right) in
      ground (arith, given, is_empty-append left (b',' ∷ right) refl, end, hops)

  -- What stands left of the hop at which the walk ends is never looked at: a client that writes
  -- anything before the right-most hop that is malformed or is not a trusted proxy is resolved as if
  -- it had written nothing, whatever the peer.
  pub resolve_client_ip-append :
      (left right : Text) (trusted : List Network) (peer : Option Text)
      → is_empty right ≡ false
      → stops trusted (hops_of l (some right)) ≡ true
      → resolve_client_ip l peer (some (left ++ (b',' ∷ right))) trusted
        ≡ resolve_client_ip l peer (some right) trusted
  unfolding resolve_client_ip
  resolve_client_ip-append left right trusted peer given h =
      ap (text_of l) (client_of-append left right trusted (parse_peer l peer) given h)
