-- ===== src/Privacy/Request/RoundTrip.antt =====
-- Restoring undoes redaction in whole blocks of content.
use mathlib.Core.Path.{subst, subst₂}
use llmgate.Prelude.{◌≡◌, ◌∙◌, refl, sym, ap, List, [], ◌∷◌, Text, All}
use llmgate.Prelude.Outcome.{ok, err, ok-injective}
use llmgate.Neutral.{Value, Items, Fields, ContentBlock, NeutralMessage, NeutralResponse}
use llmgate.Privacy.Search.{AhoCorasick, IsLeftmost}
use llmgate.Privacy.Engine.{RedactionEngine}
use llmgate.Privacy.Vault.{Vault}
use llmgate.Privacy.Vault.Valid.{IsValid, Grows, Grows-refl, Grows-trans}
use llmgate.Privacy.Session.{Session, redact_text, restore_text}
use llmgate.Privacy.Session.Automaton.{with_automaton-IsFresh}
use llmgate.Privacy.Session.Restore.{Unmentioned}
use llmgate.Privacy.Session.Redact.{IsSound}
use llmgate.Privacy.Session.RoundTrip.{IsRule, redact_text-Grows, restore_text-redact_text}
use llmgate.Privacy.Request.{
  Redacted, and_next, redact_json, redact_items, redact_fields, redact_block, redact_blocks,
  restore_json, restore_items, restore_fields, restore_block, restore_blocks, redact_message,
  restore_response,
}

-- No token of the vault stands in a string of the value.
unfoldable mutual
  pub UnmentionedJson : Vault → Value → Type 0
  UnmentionedJson v (Value.string t) = Unmentioned v t
  UnmentionedJson v (Value.array items) = UnmentionedItems v items
  UnmentionedJson v (Value.object fields) = UnmentionedFields v fields
  UnmentionedJson v Value.null = Unit
  UnmentionedJson v (Value.bool b) = Unit
  UnmentionedJson v (Value.number n) = Unit

  pub UnmentionedItems : Vault → Items → Type 0
  UnmentionedItems v Items.nil = Unit
  UnmentionedItems v (Items.cons x rest) = UnmentionedJson v x × UnmentionedItems v rest

  pub UnmentionedFields : Vault → Fields → Type 0
  UnmentionedFields v Fields.end = Unit
  UnmentionedFields v (Fields.field k x rest) = UnmentionedJson v x × UnmentionedFields v rest

-- What a text, a value and a block come down to: what is redacted in it mentions no token.
abbrev pub UnmentionedBlock : Vault → ContentBlock → Type 0
UnmentionedBlock v (ContentBlock.text_block t) = Unmentioned v t
UnmentionedBlock v (ContentBlock.thinking t signature) = Unmentioned v t
UnmentionedBlock v (ContentBlock.tool_result id content is_error) = Unmentioned v content
UnmentionedBlock v (ContentBlock.tool_use id name input) = UnmentionedJson v input
UnmentionedBlock v (ContentBlock.image media_type base64) = Unit
UnmentionedBlock v (ContentBlock.redacted_thinking payload) = Unit

abbrev pub UnmentionedBlocks : Vault → List ContentBlock → Type 0
UnmentionedBlocks v [] = Unit
UnmentionedBlocks v (block ∷ blocks) = UnmentionedBlock v block × UnmentionedBlocks v blocks

-- What restoring gives: the value, in a session with the same vault.
pub record Restored {A : Type 0} (r : A × Session) (a : A) (later : Session) : Type 0 where
  pub value : r.0 ≡ a
  pub sound : IsSound r.1
  pub same_vault : r.1.vault ≡ later.vault

-- What redacting `a` to `out` gives: a session in which, and in all later ones that keep its
-- mappings, `out` is restored to `a` if that does not mention their tokens.
pub record Undone {A : Type 0} (restore : A → Session → A × Session) (Free : Vault → A → Type 0)
    (s : Session) (a out : A) (s' : Session) : Type 0 where
  pub sound : IsSound s'
  pub grows : Grows s.vault s'.vault
  pub back :
      (later : Session)
      → IsSound later
      → Grows s'.vault later.vault
      → Free later.vault a
      → Restored (restore out later) a later

unchanged :
    {A : Type 0} (restore : A → Session → A × Session) (Free : Vault → A → Type 0) (s : Session)
    (a : A)
    → ((u : Session) → restore a u ≡ (a, u))
    → IsSound s
    → Undone restore Free s a a s
unchanged restore Free s a same sound = record {
  sound = sound;
  grows = Grows-refl s.vault;
  back = λ later sound_later grows free.
      subst (λ r. Restored r a later) (sym (same later))
        (record { value = refl; sound = sound_later; same_vault = refl });
}

-- What holds no text is left as it is.
stays :
    {A : Type 0} (restore : A → Session → A × Session) (Free : Vault → A → Type 0) (s s' : Session)
    (a out : A)
    → ((u : Session) → restore a u ≡ (a, u))
    → IsSound s
    → ◌≡◌ {A = Redacted A} (ok a, s) (ok out, s')
    → Undone restore Free s a out s'
stays restore Free s s' a out same sound h =
    subst₂ (λ o u. Undone restore Free s a o u) (ok-injective (ap (λ (q : Redacted _). q.0) h))
      (ap (λ (q : Redacted _). q.1) h) (unchanged restore Free s a same sound)

wrapped :
    {A B : Type 0} (con : A → B) (restoreA : A → Session → A × Session)
    (restoreB : B → Session → B × Session) (FreeA : Vault → A → Type 0) (FreeB : Vault → B → Type 0)
    (s s' : Session) (a out : A)
    → ((x : A) (u : Session) → restoreB (con x) u ≡ (con (restoreA x u).0, (restoreA x u).1))
    → ((v : Vault) → FreeB v (con a) → FreeA v a)
    → Undone restoreA FreeA s a out s'
    → Undone restoreB FreeB s (con a) (con out) s'
wrapped con restoreA restoreB FreeA FreeB s s' a out through free undone = record {
  sound = undone.sound;
  grows = undone.grows;
  back = λ later sound_later grows h.
      let inner = undone.back later sound_later grows (free later.vault h) in
      subst (λ r. Restored r (con a) later) (sym (through out later))
        (record { value = ap con inner.value; sound = inner.sound; same_vault = inner.same_vault });
}

paired :
    {A B C : Type 0} (con : A → B → C) (restoreA : A → Session → A × Session)
    (restoreB : B → Session → B × Session) (restoreC : C → Session → C × Session)
    (FreeA : Vault → A → Type 0) (FreeB : Vault → B → Type 0) (FreeC : Vault → C → Type 0)
    (s s₁ s' : Session) (a out_a : A) (b out_b : B)
    → ((x : A) (y : B) (u : Session)
        → restoreC (con x y) u
          ≡ (con (restoreA x u).0 (restoreB y (restoreA x u).1).0, (restoreB y (restoreA x u).1).1))
    → ((v : Vault) → FreeC v (con a b) → FreeA v a × FreeB v b)
    → Undone restoreA FreeA s a out_a s₁
    → Undone restoreB FreeB s₁ b out_b s'
    → Undone restoreC FreeC s (con a b) (con out_a out_b) s'
paired con restoreA restoreB restoreC FreeA FreeB FreeC s s₁ s' a out_a b out_b through free first
      second =
    record {
      sound = second.sound;
      grows = Grows-trans first.grows second.grows;
      back = λ later sound_later grows h.
          let frees = free later.vault h in
          let one = first.back later sound_later (Grows-trans second.grows grows) frees.0 in
          let mid = (restoreA out_a later).1 in
          let two =
            second.back mid one.sound (subst (Grows s'.vault) (sym one.same_vault) grows)
              (subst (λ v. FreeB v b) (sym one.same_vault) frees.1) in
          subst (λ r. Restored r (con a b) later) (sym (through out_a out_b later))
            (record {
              value = ap (λ x. con x (restoreB out_b mid).0) one.value ∙ ap (con a) two.value;
              sound = two.sound;
              same_vault = two.same_vault ∙ one.same_vault;
            });
    }

-- Inversion of a redaction that succeeds.
one_part :
    {A B : Type 0} (con : A → B) (r : Redacted A) (out : B) (s' : Session)
    → and_next r (λ x s. (ok (con x), s)) ≡ (ok out, s')
    → (x : A) × (r ≡ (ok x, s')) × (con x ≡ out)
one_part con (ok x, s) out s' h =
    (x, ap (λ (q : Redacted _). (ok x, q.1)) h, ok-injective (ap (λ (q : Redacted _). q.0) h))
one_part con (err e, s) out s' h = cc (ap (λ (q : Redacted _). q.0) h)

two_parts :
    {A B C : Type 0} (con : A → B → C) (r : Redacted A) (q : Session → Redacted B) (out : C)
    (s' : Session)
    → and_next r (λ x s. and_next (q s) (λ y u. (ok (con x y), u))) ≡ (ok out, s')
    → (x : A) × (s₁ : Session) × (y : B) × (r ≡ (ok x, s₁)) × (q s₁ ≡ (ok y, s')) × (con x y ≡ out)
two_parts con (ok x, s) q out s' h =
    let (y, second, same) = one_part (con x) (q s) out s' h in (x, s, y, refl, second, same)
two_parts con (err e, s) q out s' h = cc (ap (λ (p : Redacted _). p.0) h)

module _ (ac : AhoCorasick) (leftmost : IsLeftmost ac) (engine : RedactionEngine)
    (rules : All IsRule engine.rules) where
  text-Undone :
      (t out : Text) (s s' : Session)
      → IsSound s
      → redact_text ac engine t s ≡ (ok out, s')
      → Undone (restore_text ac) Unmentioned s t out s'
  unfolding restore_text
  text-Undone t out s s' sound h =
      let (sound', grows) = redact_text-Grows ac leftmost engine rules t out s s' sound h in
      record {
        sound = sound';
        grows = grows;
        back = λ later sound_later kept absent.
            let fresh = with_automaton-IsFresh later sound_later.coherent in
            record {
              value =
                  restore_text-redact_text ac leftmost engine rules t out s s' later sound h
                    sound_later kept absent;
              sound = record {
                valid = subst IsValid (sym fresh.same_vault) sound_later.valid;
                coherent = fresh.coherent;
              };
              same_vault = fresh.same_vault;
            };
      }

  -- A text inside something else.
  text_in :
      {B : Type 0} (con : Text → B) (restoreB : B → Session → B × Session)
      (FreeB : Vault → B → Type 0) (t : Text) (out : B) (s s' : Session)
      → ((x : Text) (u : Session)
          → restoreB (con x) u ≡ (con (restore_text ac x u).0, (restore_text ac x u).1))
      → ((v : Vault) → FreeB v (con t) → Unmentioned v t)
      → IsSound s
      → and_next (redact_text ac engine t s) (λ x u. (ok (con x), u)) ≡ (ok out, s')
      → Undone restoreB FreeB s (con t) out s'
  text_in con restoreB FreeB t out s s' through free sound h =
      let (x, done, same) = one_part con (redact_text ac engine t s) out s' h in
      subst (λ o. Undone restoreB FreeB s (con t) o s') same
        (wrapped con (restore_text ac) restoreB Unmentioned FreeB s s' t x through free
          (text-Undone t x s s' sound done))

  mutual
    unfolding redact_json restore_json UnmentionedJson

    json-Undone :
        (a out : Value) (s s' : Session)
        → IsSound s
        → redact_json ac engine a s ≡ (ok out, s')
        → Undone (restore_json ac) UnmentionedJson s a out s'
    json-Undone (Value.string t) out s s' sound h =
        text_in Value.string (restore_json ac) UnmentionedJson t out s s' (λ x u. refl) (λ v f. f)
          sound h
    json-Undone (Value.array items) out s s' sound h =
        let (x, done, same) = one_part Value.array (redact_items ac engine items s) out s' h in
        subst (λ o. Undone (restore_json ac) UnmentionedJson s (Value.array items) o s') same
          (wrapped Value.array (restore_items ac) (restore_json ac) UnmentionedItems UnmentionedJson
            s s' items x (λ x u. refl) (λ v f. f) (items-Undone items x s s' sound done))
    json-Undone (Value.object fields) out s s' sound h =
        let (x, done, same) = one_part Value.object (redact_fields ac engine fields s) out s' h in
        subst (λ o. Undone (restore_json ac) UnmentionedJson s (Value.object fields) o s') same
          (wrapped Value.object (restore_fields ac) (restore_json ac) UnmentionedFields
            UnmentionedJson s s' fields x (λ x u. refl) (λ v f. f)
            (fields-Undone fields x s s' sound done))
    json-Undone Value.null out s s' sound h =
        stays (restore_json ac) UnmentionedJson s s' Value.null out (λ u. refl) sound h
    json-Undone (Value.bool b) out s s' sound h =
        stays (restore_json ac) UnmentionedJson s s' (Value.bool b) out (λ u. refl) sound h
    json-Undone (Value.number n) out s s' sound h =
        stays (restore_json ac) UnmentionedJson s s' (Value.number n) out (λ u. refl) sound h

    items-Undone :
        (a out : Items) (s s' : Session)
        → IsSound s
        → redact_items ac engine a s ≡ (ok out, s')
        → Undone (restore_items ac) UnmentionedItems s a out s'
    items-Undone Items.nil out s s' sound h =
        stays (restore_items ac) UnmentionedItems s s' Items.nil out (λ u. refl) sound h
    items-Undone (Items.cons a rest) out s s' sound h =
        let (x, s₁, y, first, second, same) =
          two_parts Items.cons (redact_json ac engine a s) (redact_items ac engine rest) out s' h in
        let one = json-Undone a x s s₁ sound first in
        subst (λ o. Undone (restore_items ac) UnmentionedItems s (Items.cons a rest) o s') same
          (paired Items.cons (restore_json ac) (restore_items ac) (restore_items ac) UnmentionedJson
            UnmentionedItems UnmentionedItems s s₁ s' a x rest y (λ x y u. refl) (λ v f. f) one
            (items-Undone rest y s₁ s' one.sound second))

    fields-Undone :
        (a out : Fields) (s s' : Session)
        → IsSound s
        → redact_fields ac engine a s ≡ (ok out, s')
        → Undone (restore_fields ac) UnmentionedFields s a out s'
    fields-Undone Fields.end out s s' sound h =
        stays (restore_fields ac) UnmentionedFields s s' Fields.end out (λ u. refl) sound h
    fields-Undone (Fields.field k a rest) out s s' sound h =
        let (x, s₁, y, first, second, same) =
          two_parts (Fields.field k) (redact_json ac engine a s) (redact_fields ac engine rest) out
            s' h in
        let one = json-Undone a x s s₁ sound first in
        subst (λ o. Undone (restore_fields ac) UnmentionedFields s (Fields.field k a rest) o s')
          same
          (paired (Fields.field k) (restore_json ac) (restore_fields ac) (restore_fields ac)
            UnmentionedJson UnmentionedFields UnmentionedFields s s₁ s' a x rest y (λ x y u. refl)
            (λ v f. f) one (fields-Undone rest y s₁ s' one.sound second))

  block-Undone :
      (a out : ContentBlock) (s s' : Session)
      → IsSound s
      → redact_block ac engine a s ≡ (ok out, s')
      → Undone (restore_block ac) UnmentionedBlock s a out s'
  unfolding redact_block restore_block
  block-Undone (ContentBlock.text_block t) out s s' sound h =
      text_in ContentBlock.text_block (restore_block ac) UnmentionedBlock t out s s' (λ x u. refl)
        (λ v f. f) sound h
  block-Undone (ContentBlock.thinking t signature) out s s' sound h =
      text_in (λ x. ContentBlock.thinking x signature) (restore_block ac) UnmentionedBlock t out s
        s' (λ x u. refl) (λ v f. f) sound h
  block-Undone (ContentBlock.tool_result id content is_error) out s s' sound h =
      text_in (λ x. ContentBlock.tool_result id x is_error) (restore_block ac) UnmentionedBlock
        content out s s' (λ x u. refl) (λ v f. f) sound h
  block-Undone (ContentBlock.tool_use id name input) out s s' sound h =
      let con : Value → ContentBlock = λ x. ContentBlock.tool_use id name x in
      let (x, done, same) = one_part con (redact_json ac engine input s) out s' h in
      subst (λ o. Undone (restore_block ac) UnmentionedBlock s (con input) o s') same
        (wrapped con (restore_json ac) (restore_block ac) UnmentionedJson UnmentionedBlock s s'
          input x (λ x u. refl) (λ v f. f) (json-Undone input x s s' sound done))
  block-Undone (ContentBlock.image media_type base64) out s s' sound h =
      stays (restore_block ac) UnmentionedBlock s s' (ContentBlock.image media_type base64) out
        (λ u. refl) sound h
  block-Undone (ContentBlock.redacted_thinking payload) out s s' sound h =
      stays (restore_block ac) UnmentionedBlock s s' (ContentBlock.redacted_thinking payload) out
        (λ u. refl) sound h

  blocks-Undone :
      (blocks out : List ContentBlock) (s s' : Session)
      → IsSound s
      → redact_blocks ac engine blocks s ≡ (ok out, s')
      → Undone (restore_blocks ac) UnmentionedBlocks s blocks out s'
  unfolding redact_blocks restore_blocks
  blocks-Undone [] out s s' sound h =
      stays (restore_blocks ac) UnmentionedBlocks s s' [] out (λ u. refl) sound h
  blocks-Undone (a ∷ rest) out s s' sound h =
      let con : ContentBlock → List ContentBlock → List ContentBlock = λ x xs. x ∷ xs in
      let (x, s₁, y, first, second, same) =
        two_parts con (redact_block ac engine a s) (redact_blocks ac engine rest) out s' h in
      let one = block-Undone a x s s₁ sound first in
      subst
        (λ (o : List ContentBlock). Undone (restore_blocks ac) UnmentionedBlocks s (a ∷ rest) o s')
        same
        (paired con (restore_block ac) (restore_blocks ac) (restore_blocks ac) UnmentionedBlock
          UnmentionedBlocks UnmentionedBlocks s s₁ s' a x rest y (λ x y u. refl) (λ v f. f) one
          (blocks-Undone rest y s₁ s' one.sound second))

  -- A message that is redacted loses no mapping.
  pub redact_message-Grows :
      (message redacted : NeutralMessage) (s s' : Session)
      → IsSound s
      → redact_message ac engine message s ≡ (ok redacted, s')
      → IsSound s' × Grows s.vault s'.vault
  unfolding redact_message
  redact_message-Grows message redacted s s' sound h =
      let (blocks, done, whole) =
        one_part (λ content. record message { content = content })
          (redact_blocks ac engine message.content s) redacted s' h in
      let undone = blocks-Undone message.content blocks s s' sound done in
      (undone.sound, undone.grows)

  -- An answer that repeats the content of a redacted message, its texts, its thoughts, its tool
  -- results and the JSON of its tool calls, is restored to the content of the message itself, in the
  -- session that redacted it and in every later one that has kept its mappings, if no token that the
  -- later session has minted stood in the message. The rules may be any that the engine's constructor
  -- accepts, over any regexes that report their matches in order.
  pub restore_response-redact_message :
      (message redacted : NeutralMessage) (resp : NeutralResponse) (s s' later : Session)
      → IsSound s
      → redact_message ac engine message s ≡ (ok redacted, s')
      → resp.content ≡ redacted.content
      → IsSound later
      → Grows s'.vault later.vault
      → UnmentionedBlocks later.vault message.content
      → (restore_response ac resp later).0.content ≡ message.content
  unfolding redact_message restore_response
  restore_response-redact_message message redacted resp s s' later sound h same sound_later grows
        free =
      let (blocks, done, whole) =
        one_part (λ content. record message { content = content })
          (redact_blocks ac engine message.content s) redacted s' h in
      let undone = blocks-Undone message.content blocks s s' sound done in
      ap (λ content. (restore_blocks ac content later).0)
        (same ∙ sym (ap (λ (m : NeutralMessage). m.content) whole))
      ∙ (undone.back later sound_later grows free).value
