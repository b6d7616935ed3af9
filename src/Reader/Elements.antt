-- ===== src/Reader/Elements.antt =====
-- An element that is read: the loop over its tokens against the tree that they stand for, and what
-- the value then says.
use kdsoap.Prelude.{ℕ, zero, suc, ◌+◌, ◌<◌, ◌≤◌, List, [], ◌∷◌, ◌≡◌, refl, ap, ◌∙◌, arith, length}
use kdsoap.Xml.{
  Element, Token, finish, Node, element, text, Nodes, nil, cons, tokens_of, tokens_of_nodes,
}
use kdsoap.Value.{Variants}
use kdsoap.Reader.{Parsing, opened, close, parse_content, append_child}

-- The number of tokens.
unfoldable mutual
  pub size : Node → ℕ
  size (element e ns) = 2 + size_nodes ns
  size (text t) = 1

  pub size_nodes : Nodes → ℕ
  size_nodes nil = 0
  size_nodes (cons n ns) = size n + size_nodes ns

module _ {V : Type 0} (q : Variants V) where
  -- The content of an element read along its tree.
  unfoldable pub read_nodes : Parsing V → Nodes → Parsing V
  read_nodes p nil = p
  read_nodes p (cons (text t) ns) = read_nodes (record p { last_text = t }) ns
  read_nodes p (cons (element e ks) ns) =
      let sub = close q (read_nodes (opened q p.scope e) ks) in
      read_nodes (record p { value = append_child q p.value sub }) ns

  -- Whatever the tree, the loop over the tokens of an element reads its content as it stands in the
  -- tree, stops at the end tag of that element and leaves the tokens behind it, where the fuel
  -- exceeds the number of tokens of the content.
  pub parse_content-tokens_of_nodes :
      (ns : Nodes) (fuel : ℕ) (p : Parsing V) (e : Element) (rest : List Token)
      → size_nodes ns < fuel
      → parse_content q fuel p (tokens_of_nodes ns (finish e ∷ rest))
        ≡ record { value = close q (read_nodes p ns); last = finish e; rest = rest }
  unfolding parse_content tokens_of read_nodes size
  parse_content-tokens_of_nodes ns zero p e rest h = absurd (omega arith)
  parse_content-tokens_of_nodes nil (suc fuel) p e rest h = refl
  parse_content-tokens_of_nodes (cons (text t) ns) (suc fuel) p e rest h =
      parse_content-tokens_of_nodes ns fuel (record p { last_text = t }) e rest (omega arith)
  parse_content-tokens_of_nodes (cons (element d ks) ns) (suc fuel) p e rest h =
      ap
        (λ sub.
          parse_content q fuel (record p { value = append_child q p.value sub.value }) sub.rest)
        (parse_content-tokens_of_nodes ks fuel (opened q p.scope d) d
          (tokens_of_nodes ns (finish e ∷ rest)) (omega arith))
      ∙ parse_content-tokens_of_nodes ns fuel
          (record p {
            value = append_child q p.value (close q (read_nodes (opened q p.scope d) ks));
          })
          e rest (omega arith)

  parse_content-rest :
      (fuel : ℕ) (p : Parsing V) (ts : List Token)
      → length (parse_content q fuel p ts).rest ≤ length ts
  unfolding parse_content
  parse_content-rest zero p ts = omega arith
  parse_content-rest (suc fuel) p [] = omega arith
  parse_content-rest (suc fuel) p (Token.invalid ∷ ts) = omega arith
  parse_content-rest (suc fuel) p (Token.finish e ∷ ts) = omega arith
  parse_content-rest (suc fuel) p (Token.characters t ∷ ts) =
      omega (arith, parse_content-rest fuel (record p { last_text = t }) ts)
  parse_content-rest (suc fuel) p (Token.other ∷ ts) = omega (arith, parse_content-rest fuel p ts)
  parse_content-rest (suc fuel) p (Token.start e ∷ ts) =
      let sub = parse_content q fuel (opened q p.scope e) ts in
      omega (
        arith,
        parse_content-rest fuel (opened q p.scope e) ts,
        parse_content-rest fuel (record p { value = append_child q p.value sub.value }) sub.rest,
      )

  -- Whatever the tokens, broken documents included, the loop over the content of an element ends
  -- within as many rounds as there are tokens: any two fuels beyond their number have the same
  -- result.
  parse_content-fuel :
      (f g : ℕ) (p : Parsing V) (ts : List Token)
      → length ts < f
      → length ts < g
      → parse_content q f p ts ≡ parse_content q g p ts
  unfolding parse_content
  parse_content-fuel zero g p ts hf hg = absurd (omega arith)
  parse_content-fuel (suc f) zero p ts hf hg = absurd (omega arith)
  parse_content-fuel (suc f) (suc g) p [] hf hg = refl
  parse_content-fuel (suc f) (suc g) p (Token.invalid ∷ ts) hf hg = refl
  parse_content-fuel (suc f) (suc g) p (Token.finish e ∷ ts) hf hg = refl
  parse_content-fuel (suc f) (suc g) p (Token.characters t ∷ ts) hf hg =
      parse_content-fuel f g (record p { last_text = t }) ts (omega arith) (omega arith)
  parse_content-fuel (suc f) (suc g) p (Token.other ∷ ts) hf hg =
      parse_content-fuel f g p ts (omega arith) (omega arith)
  parse_content-fuel (suc f) (suc g) p (Token.start e ∷ ts) hf hg =
      let sub = parse_content q f (opened q p.scope e) ts in
      parse_content-fuel f g (record p { value = append_child q p.value sub.value }) sub.rest
        (omega (arith, parse_content-rest f (opened q p.scope e) ts))
        (omega (arith, parse_content-rest f (opened q p.scope e) ts))
      ∙ ap
          (λ sub'.
            parse_content q g (record p { value = append_child q p.value sub'.value }) sub'.rest)
          (parse_content-fuel f g (opened q p.scope e) ts (omega arith) (omega arith))
