-- ===== src/Limiter/Addresses/Laws.antt =====
-- Whose address a login is counted for, whatever the header says.
use mc_admin.Base.{
  Text, codes, true, false, ◌||◌, not, Option, none, some, List, [], ◌∷◌, ◌++◌, ◌≡◌, refl, All, ◌⊎◌,
  inl, inr, ap, length, ltb, Bool-cases, Option-cases, if◌then◌else◌, arith,
}
use mc_admin.Base.Strings.{strip}
use mc_admin.Limiter.Buckets.{is_nil}
use mc_admin.Limiter.Addresses.{
  Addresses, split_at, is_trusted, parse_all, last_untrusted, observed, from_header, resolve,
}

module _ (lib : Addresses) (trusted : List lib.Network) where
  abbrev pub Trusted : lib.Address → Type 0
  Trusted address = is_trusted lib trusted address ≡ true

  -- All hops after an address of a chain are trusted, and it is not, or there is none before it.
  pub record Seen (chain : List lib.Address) (address : lib.Address) : Type 0 where
    pub before : List lib.Address
    pub after : List lib.Address
    pub place : chain ≡ before ++ address ∷ after
    pub trusted_after : All Trusted after
    pub first_or_foreign : (before ≡ []) ⊎ (is_trusted lib trusted address ≡ false)

  data Last (chain : List lib.Address) (found : Option lib.Address) : Type 0 where
    nobody : found ≡ none → All Trusted chain → Last chain found
    somebody :
        (address : lib.Address) (before after : List lib.Address)
        → found ≡ some address
        → chain ≡ before ++ address ∷ after
        → All Trusted after
        → is_trusted lib trusted address ≡ false
        → Last chain found

  last_untrusted-Last : (chain : List lib.Address) → Last chain (last_untrusted lib trusted chain)
  unfolding last_untrusted
  last_untrusted-Last [] = nobody refl tt
  last_untrusted-Last (a ∷ chain) = elim (last_untrusted-Last chain) [
    | somebody b before after found place rest foreign ↦
        somebody b (a ∷ before) after (rw (found, last_untrusted)) (ap (λ c. a ∷ c) place) rest
          foreign
    | nobody absent rest ↦ elim (Bool-cases (is_trusted lib trusted a)) [
      | inl known ↦ nobody (rw (absent, known, last_untrusted)) (known, rest)
      | inr foreign ↦ somebody a [] chain (rw (absent, foreign, last_untrusted)) refl rest foreign
    ]
  ]

  observed-Seen :
      (direct : lib.Address) (forwarded : List lib.Address)
      → Seen (forwarded ++ direct ∷ []) (observed lib trusted direct forwarded)
  unfolding observed
  observed-Seen direct forwarded = elim (last_untrusted-Last (forwarded ++ direct ∷ [])) [
    | somebody a before after found place rest foreign ↦
        rw (found, observed)
          (record {
            before = before;
            after = after;
            place = place;
            trusted_after = rest;
            first_or_foreign = inr foreign;
          })
    | nobody absent rest ↦ rw (absent, observed) (first forwarded rest)
  ]
    where
      first :
          (forwarded : List lib.Address)
          → All Trusted (forwarded ++ direct ∷ [])
          → Seen (forwarded ++ direct ∷ []) (elim forwarded [ [] ↦ direct | a ∷ _ ↦ a ])
      first [] rest = record {
        before = [];
        after = [];
        place = refl;
        trusted_after = tt;
        first_or_foreign = inl refl;
      }
      first (a ∷ others) rest = record {
        before = [];
        after = others ++ direct ∷ [];
        place = refl;
        trusted_after = rest.1;
        first_or_foreign = inl refl;
      }

  -- What `resolve` makes of a peer that is an address: the address seen from a chain that ends in
  -- the peer, and is the peer alone or the hops of the header before it.
  pub record Resolved (direct : lib.Address) (header answer : Text) : Type 0 where
    pub hops : List lib.Address
    pub address : lib.Address
    pub answers : answer ≡ lib.str address
    pub seen : Seen (hops ++ direct ∷ []) address
    pub read : (hops ≡ []) ⊎ (parse_all lib (split_at 44 header) ≡ some hops)
    pub own : is_trusted lib trusted direct ≡ false → address ≡ direct

  module _ (direct : lib.Address) (header : Text) where
    alone : (answer : Text) → answer ≡ lib.str direct → Resolved direct header answer
    alone answer e = record {
      hops = [];
      address = direct;
      answers = e;
      seen = record {
        before = [];
        after = [];
        place = refl;
        trusted_after = tt;
        first_or_foreign = inl refl;
      };
      read = inl refl;
      own = λ foreign. refl;
    }

    clash : is_trusted lib trusted direct ≡ true → is_trusted lib trusted direct ≡ false → ⊥
    clash known foreign = ground (arith, known, foreign)

    from_header-Resolved :
        is_trusted lib trusted direct ≡ true
        → Resolved direct header (lib.str (from_header lib trusted direct header))
    unfolding from_header
    from_header-Resolved known = elim (Bool-cases (ltb 2048 (length header))) [
      | inl long ↦ rw (long, from_header) (alone _ refl)
      | inr short ↦ elim (Bool-cases (ltb 16 (length (split_at 44 header)))) [
        | inl many ↦ rw (short, many, from_header) (alone _ refl)
        | inr few ↦ elim (Option-cases (parse_all lib (split_at 44 header))) [
          | inl garbled ↦ rw (short, few, garbled, from_header) (alone _ refl)
          | inr (hops, parsed) ↦
              rw (short, few, parsed, from_header)
                (record {
                  hops = hops;
                  address = observed lib trusted direct hops;
                  answers = refl;
                  seen = observed-Seen direct hops;
                  read = inr parsed;
                  own = λ foreign. absurd (clash known foreign);
                })
        ]
      ]
    ]

  -- The address that a login is counted for comes from a chain of addresses that ends in the peer
  -- of the connection and has the hops of the header before it, or none: every hop after it is
  -- trusted, and it is not, or it is the first; a peer that is not trusted is counted itself.
  pub resolve-Resolved :
      (peer_host header : Text) (direct : lib.Address)
      → lib.parse (if is_nil (strip peer_host) then codes "unknown" else strip peer_host)
        ≡ some direct
      → Resolved direct header (resolve lib trusted peer_host header)
  unfolding resolve
  resolve-Resolved peer_host header direct parsed =
      elim (Bool-cases (not (is_trusted lib trusted direct) || is_nil header)) [
        | inl direct_only ↦ rw (parsed, direct_only, resolve) (alone direct header _ refl)
        | inr forwarded ↦
            rw (parsed, forwarded, resolve)
              (from_header-Resolved direct header (ground (arith, forwarded)))
      ]
