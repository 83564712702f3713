-- ===== src/Privacy/Tokens.antt =====
-- Searching for tokens: why a leftmost search finds them where they were put, and nowhere else.
use mathlib.Core.Path.{subst}
use mathlib.Core.List.{Memᴰ}
use llmgate.Prelude.{
  ℕ, ◌+◌, ◌≤◌, ◌<◌, ◌≡◌, ◌∙◌, refl, sym, ap, ◌≢◌, inl, inr, false, none, some, List, [], ◌∷◌, ◌++◌,
  append_assoc, append-nil, Text, length, drop, map, arith, leb, Bool-cases, Option-cases, All,
  length-append, append_split, All-append, All-append_right, drop-length-append,
}
use llmgate.Privacy.Search.{AhoCorasick, IsLeftmost, Occurs, shift}
use llmgate.Privacy.Template.{is_word}
use llmgate.Privacy.Template.Grammar.{IsToken, IsWord, Lacks_of_words}

-- None of the patterns stands anywhere in the text.
abbrev pub Absent : List Text → Text → Type 0
Absent ps t = (s e : ℕ) → Occurs ps t s e → ⊥

pub Absent-append_left : (ps : List Text) (s t : Text) → Absent ps (s ++ t) → Absent ps s
Absent-append_left ps s t h i j o = h i j (record {
  before = o.before;
  pattern = o.pattern;
  after = o.after ++ t;
  listed = o.listed;
  split = ap (λ u. u ++ t) o.split ∙ simp append_assoc;
  starts = o.starts;
  ends = o.ends;
})

pub Absent-append_right : (ps : List Text) (s t : Text) → Absent ps (s ++ t) → Absent ps t
Absent-append_right ps s t h i j o =
    h (length (s ++ o.before)) (length (s ++ o.before) + length o.pattern) (record {
      before = s ++ o.before;
      pattern = o.pattern;
      after = o.after;
      listed = o.listed;
      split = ap (λ u. s ++ u) o.split ∙ simp append_assoc;
      starts = refl;
      ends = refl;
    })

abbrev pub AreTokens : List Text → Type 0
AreTokens ps = (p : Text) → Memᴰ p ps → IsToken p

not_close : (c : ℕ) → IsWord c → b'>' ≢ c
not_close c word e = let closes : false ≡ is_word c = ap is_word e in cc

bodies_unique :
    (a b x y : Text)
    → All IsWord a
    → All IsWord b
    → a ++ b'>' ∷ x ≡ b ++ b'>' ∷ y
    → (a ≡ b) × (x ≡ y)
bodies_unique [] [] x y ha hb e = (refl, cc e)
bodies_unique [] (c ∷ b) x y ha hb e = absurd (not_close c hb.0 (cc e))
bodies_unique (c ∷ a) [] x y ha hb e = absurd (not_close c ha.0 (sym (cc e)))
bodies_unique (c ∷ a) (d ∷ b) x y ha hb e =
    let ih : (a ≡ b) × (x ≡ y) = bodies_unique a b x y ha.1 hb.1 (cc e) in (cc, ih.1)

-- No token is the beginning of another.
pub token_prefix_free :
    (p k x y : Text) → IsToken p → IsToken k → p ++ x ≡ k ++ y → (p ≡ k) × (x ≡ y)
token_prefix_free p k x y hp hk e =
    let flat : hp.body ++ b'>' ∷ x ≡ hk.body ++ b'>' ∷ y =
      sym (append_assoc hp.body (b'>' ∷ []) x)
      ∙ cc (sym (ap (λ u. u ++ x) hp.shape) ∙ e ∙ ap (λ u. u ++ y) hk.shape)
      ∙ append_assoc hk.body (b'>' ∷ []) y in
    let (same, rest) = bodies_unique hp.body hk.body x y hp.words hk.words flat in
    (hp.shape ∙ ap (λ b. b'<' ∷ (b ++ b'>' ∷ [])) same ∙ sym hk.shape, rest)

-- `<` stands in a token at its beginning only.
only_opens : (p zs ws : Text) → IsToken p → p ≡ zs ++ b'<' ∷ ws → zs ≡ []
only_opens p [] ws hp e = refl
only_opens p (z ∷ zs) ws hp e =
    let inner : hp.body ++ b'>' ∷ [] ≡ zs ++ b'<' ∷ ws = cc (sym hp.shape ∙ e) in
    let lacks : All (λ c. c ≢ b'<') (hp.body ++ b'>' ∷ []) =
      All-append (λ c. c ≢ b'<') hp.body (b'>' ∷ []) (Lacks_of_words b'<' refl hp.body hp.words)
        ((λ h. omega arith), tt) in
    absurd (
      (All-append_right (λ c. c ≢ b'<') zs (b'<' ∷ ws) (subst (All (λ c. c ≢ b'<')) inner lacks)).0
        refl)

-- A token that begins in the text before another token lies in that text.
module _ (ps : List Text) (tokens : AreTokens ps) (l k r : Text) (absent : Absent ps l)
    (listed : Memᴰ k ps) where
  -- An occurrence that starts no later than the token is that token.
  first_is_token :
      (s e : ℕ)
      → Occurs ps (l ++ (k ++ r)) s e
      → s ≤ length l
      → (s ≡ length l) × (e ≡ length l + length k)
  first_is_token s e o early =
      let (zs, front, back) =
        append_split l o.before (k ++ r) (o.pattern ++ o.after) o.split (omega (arith, o.starts)) in
      elim (Bool-cases (leb (length o.pattern) (length zs))) [
        | inl inside ↦
            let (ws, within, _) =
              append_split zs o.pattern (k ++ r) o.after (sym back) (ground arith) in
            absurd (
              absent s e (record {
                before = o.before;
                pattern = o.pattern;
                after = ws;
                listed = o.listed;
                split = front ∙ ap (λ u. o.before ++ u) within;
                starts = o.starts;
                ends = o.ends;
              }))
        | inr across ↦
            let (ws, pattern, rest) =
              append_split o.pattern zs o.after (k ++ r) back (ground arith) in
            reaches s e o zs ws front back pattern rest
              (ground (arith, ap length pattern, length-append zs ws))
      ]
    where
      reaches :
          (s e : ℕ) (o : Occurs ps (l ++ (k ++ r)) s e) (zs ws : Text)
          → l ≡ o.before ++ zs
          → o.pattern ++ o.after ≡ zs ++ (k ++ r)
          → o.pattern ≡ zs ++ ws
          → k ++ r ≡ ws ++ o.after
          → 0 < length ws
          → (s ≡ length l) × (e ≡ length l + length k)
      reaches s e o zs [] front back pattern rest pos = elim pos [ ]
      reaches s e o zs (w ∷ ws) front back pattern rest pos =
          let hk = tokens k listed in
          let opens : w ≡ b'<' = cc (sym rest ∙ ap (λ u. u ++ r) hk.shape) in
          let empty : zs ≡ [] =
            only_opens o.pattern zs ws (tokens o.pattern o.listed)
              (pattern ∙ ap (λ c. zs ++ c ∷ ws) opens) in
          let same : o.pattern ≡ k =
            (token_prefix_free o.pattern k o.after r (tokens o.pattern o.listed) hk
              (back ∙ ap (λ u. u ++ (k ++ r)) empty)).0 in
          let whole : length l ≡ length o.before =
            ap length front
            ∙ ap (λ u. length (o.before ++ u)) empty
            ∙ ap length (append-nil o.before) in
          (omega (arith, whole, o.starts), omega (arith, whole, o.ends, ap length same))

  -- A leftmost search finds the token where it stands.
  pub find_token :
      (ac : AhoCorasick)
      → IsLeftmost ac
      → ac.find ps (l ++ (k ++ r)) ≡ some (length l, length l + length k)
  find_token ac leftmost =
      let here : Occurs ps (l ++ (k ++ r)) (length l) (length l + length k) = record {
        before = l;
        pattern = k;
        after = r;
        listed = listed;
        split = refl;
        starts = refl;
        ends = refl;
      } in
      elim (Option-cases (ac.find ps (l ++ (k ++ r)))) [
        | inl missed ↦
            absurd
              (leftmost.find_none ps (l ++ (k ++ r)) missed (length l) (length l + length k) here)
        | inr ((s, e), found) ↦
            let (at_start, at_end) =
              first_is_token s e (leftmost.find_some ps (l ++ (k ++ r)) s e found) (
                leftmost.find_first ps (l ++ (k ++ r)) s e found (length l) (length l + length k)
                  here) in
            found ∙ cc (at_start, at_end)
      ]

  -- The iterator reports it and goes on behind it.
  pub iter_token :
      (ac : AhoCorasick)
      → IsLeftmost ac
      → ac.find_iter ps (l ++ (k ++ r))
        ≡ (length l, length l + length k) ∷ map (shift (length l + length k)) (ac.find_iter ps r)
  iter_token ac leftmost =
      let hk = tokens k listed in
      let longer : 0 < length l + length k = omega (arith, ap length hk.shape) in
      let behind : drop (length l + length k) (l ++ (k ++ r)) ≡ r =
        rw (← append_assoc l k r, ← length-append l k) (drop-length-append (l ++ k) r) in
      leftmost.iter_some ps (l ++ (k ++ r)) (length l) (length l + length k)
        (find_token ac leftmost) longer
      ∙ rw behind

-- Where no pattern occurs nothing is found.
pub find-Absent :
    (ac : AhoCorasick) (ps : List Text) (t : Text)
    → IsLeftmost ac
    → Absent ps t
    → ac.find ps t ≡ none
find-Absent ac ps t leftmost absent = elim (Option-cases (ac.find ps t)) [
  | inl missed ↦ missed
  | inr ((s, e), found) ↦ absurd (absent s e (leftmost.find_some ps t s e found))
]
