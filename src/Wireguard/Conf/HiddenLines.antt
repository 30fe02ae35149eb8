-- ===== src/Wireguard/Conf/HiddenLines.antt =====
-- src/daemon/wireguard/conf.rs: what `redact` makes of a line.
use asc_daemon.Prelude.{
  ℕ, ◌≡◌, refl, ap, ◌∙◌, Bool, true, false, Option, none, some, Text, [], ◌∷◌, ◌++◌, codes,
  contains, trim_start, trim_start-solid, trim_start-space, trim-space_after, strip_prefix-append,
  suc, ◌-◌, take, split_once, to_lower, map, strip_prefix, is_prefix, starts_solid,
  starts_solid-append, arith, length,
}
use asc_daemon.Wireguard.Conf.Render.{pair}
use asc_daemon.Wireguard.Conf.Redact.{
  secret_keys, hidden_value, redact_key, redact_parts, redact_body, redact_line,
}
use asc_daemon.Wireguard.Conf.Reading.{KeyLike, with_prefix, split_once-pair, no_empty, no_off-pair}

pair-starts : (k v : Text) → KeyLike k → starts_solid (pair k v) ≡ true
pair-starts k v like = starts_solid-append k (codes " = " ++ v) like.solid.0

no_sharp : (k v : Text) → KeyLike k → is_prefix (codes "#") (pair k v) ≡ false
no_sharp [] v like = absurd (no_empty like.solid.0)
no_sharp (c ∷ k) v like = unfold contains strip_prefix in ground (arith, like.no_hash)

-- the body of a line with a key that is no secret, and of one with a secret
redact_body-pair :
    (line prefix body k v : Text)
    → KeyLike k
    → trim_start body ≡ pair k v
    → secret_keys (map to_lower k) ≡ false
    → redact_body line prefix body ≡ line
redact_body-pair line prefix body k v like e s =
    rw (e, split_once-pair k v like, no_sharp k v like, trim-space_after k like.solid, s)

redact_body-secret :
    (line prefix body k v : Text)
    → KeyLike k
    → trim_start body ≡ pair k v
    → secret_keys (map to_lower k) ≡ true
    → redact_body line prefix body
      ≡ prefix ++ (take (length body - length (pair k v)) body ++ (k ++ codes " = (hidden)"))
redact_body-secret line prefix body k v like e s =
    rw (e, split_once-pair k v like, no_sharp k v like, trim-space_after k like.solid, s)

redact_key-sharp :
    (line prefix body trimmed : Text) (o : Option (Text × Text))
    → is_prefix (codes "#") trimmed ≡ true
    → redact_key line prefix body trimmed o ≡ line
redact_key-sharp line prefix body trimmed none h = refl
redact_key-sharp line prefix body trimmed (some (key, value)) h = rw h

abbrev pub prefix_of : Bool → Text
prefix_of true = codes "#asc:off"
prefix_of false = []

abbrev pub body_of : Bool → Text → Text
body_of true l = 32 ∷ l
body_of false l = l

trim_start-body_of :
    (off : Bool) (l : Text) → starts_solid l ≡ true → trim_start (body_of off l) ≡ l
trim_start-body_of true l h = trim_start-space l ∙ trim_start-solid l h
trim_start-body_of false l h = trim_start-solid l h

no_parts :
    (line : Text) (o : Option Text)
    → elim o as (λ _. Bool) [ none ↦ false | some rest ↦ true ] ≡ false
    → redact_parts line o ≡ redact_body line [] line
no_parts line none h = refl
no_parts line (some rest) h = ground (arith, h)

redact_line-body :
    (off : Bool) (l : Text)
    → is_prefix (codes "#asc:off") l ≡ false
    → redact_line (with_prefix off l)
      ≡ redact_body (with_prefix off l) (prefix_of off) (body_of off l)
unfolding redact_line
redact_line-body true l h = rw (strip_prefix-append (codes "#asc:off") (32 ∷ l))
redact_line-body false l h = no_parts l (strip_prefix (codes "#asc:off") l) h

module _ (off : Bool) (k v : Text) (like : KeyLike k) where
  pub pair-kept :
      secret_keys (map to_lower k) ≡ false
      → redact_line (with_prefix off (pair k v)) ≡ with_prefix off (pair k v)
  pair-kept s =
      redact_line-body off (pair k v) (no_off-pair k v like)
      ∙ redact_body-pair (with_prefix off (pair k v)) (prefix_of off) (body_of off (pair k v)) k v
          like (trim_start-body_of off (pair k v) (pair-starts k v like)) s

  hidden_line :
      (off : Bool)
      → prefix_of off
          ++ (take (length (body_of off (pair k v)) - length (pair k v)) (body_of off (pair k v))
              ++ (k ++ codes " = (hidden)"))
        ≡ with_prefix off (pair k hidden_value)
  hidden_line true =
      ap (λ (n : ℕ). codes "#asc:off" ++ (take n (32 ∷ pair k v) ++ (k ++ codes " = (hidden)")))
        (suc-sub (length (pair k v)))
    where
      suc-sub : (n : ℕ) → suc n - n ≡ 1
      suc-sub n = omega arith
  hidden_line false =
      ap (λ (n : ℕ). take n (pair k v) ++ (k ++ codes " = (hidden)")) (self-sub (length (pair k v)))
    where
      self-sub : (n : ℕ) → n - n ≡ 0
      self-sub n = omega arith

  pub pair-hidden :
      secret_keys (map to_lower k) ≡ true
      → redact_line (with_prefix off (pair k v)) ≡ with_prefix off (pair k hidden_value)
  pair-hidden s =
      redact_line-body off (pair k v) (no_off-pair k v like)
      ∙ redact_body-secret (with_prefix off (pair k v)) (prefix_of off) (body_of off (pair k v)) k v
          like (trim_start-body_of off (pair k v) (pair-starts k v like)) s
      ∙ hidden_line off

pub comment-kept :
    (off : Bool) (s : Text)
    → redact_line (with_prefix off (codes "# asc:" ++ s)) ≡ with_prefix off (codes "# asc:" ++ s)
unfolding strip_prefix starts_solid
comment-kept off s =
    let line = codes "# asc:" ++ s in
    redact_line-body off line refl
    ∙ redact_key-sharp (with_prefix off line) (prefix_of off) (body_of off line)
        (trim_start (body_of off line)) (split_once b'=' (trim_start (body_of off line)))
        (rw (trim_start-body_of off line refl))
