-- ===== src/Auth/Verifier.antt =====
-- internal/oci/verifier.go: the verifier of signatures, over the library cosign.
use flux_build.Base.{
  Bool, true, false, Option, none, some, List, [], ◌∷◌, ◌++◌, ◌≡◌, ◌≢◌, ◌∙◌, sym, ◌↔◌, ◌⊎◌, refl,
  inl, inr, arith, Option-cases, List-cases, if◌then◌else◌,
}
use flux_build.Base.Results.{Result, ok, err, ◌>>=◌}
use flux_build.Base.Text.{Text, is_empty}

pub data VerifierError : Type 0 where
  no_client_options bad_public_key no_sig_verifier no_fulcio_roots no_intermediates : VerifierError
  no_rekor_client verify_failed : VerifierError

-- cosign, fulcio, rekor and the packages of sigstore
pub record CosignLibrary : Type 1 where
  pub RemoteOption : Type 0
  pub ClientOptions : Type 0
  pub PublicKey : Type 0
  pub SigVerifier : Type 0
  pub Certificates : Type 0
  pub RekorClient : Type 0
  pub Reference : Type 0
  pub Signature : Type 0
  pub client_options : Option ClientOptions
  pub with_remote : ClientOptions → List RemoteOption → ClientOptions
  pub unmarshal_key : Text → Option PublicKey
  pub load_verifier : PublicKey → Option SigVerifier
  pub roots : Option Certificates
  pub intermediates : Option Certificates
  pub rekor : Option RekorClient

module _ (lib : CosignLibrary) where
  open lib use {
    RemoteOption, ClientOptions, PublicKey, SigVerifier, Certificates, RekorClient, Reference,
    Signature,
  }

  -- `options`; nil options of the remote are `none`.
  pub record VerifierOptions : Type 0 where
    pub public_key : Text
    pub remote : Option (List RemoteOption)

  -- `WithPublicKey` and `WithRemoteOptions`
  pub data VerifierOption : Type 0 where
    with_public_key : Text → VerifierOption
    with_remote_options : Option (List RemoteOption) → VerifierOption

  unfoldable pub apply_option : VerifierOption → VerifierOptions → VerifierOptions
  apply_option (with_public_key key) o = record o { public_key = key }
  apply_option (with_remote_options remote) o = record o { remote = remote }

  unfoldable pub apply_options : List VerifierOption → VerifierOptions → VerifierOptions
  unfolding apply_option
  apply_options [] o = o
  apply_options (option ∷ more) o = apply_options more (apply_option option o)

  -- `cosign.CheckOpts`, with the fields that are set: those of `CosignVerifier`
  pub record CheckOptions : Type 0 where
    pub client : ClientOptions
    pub sig_verifier : Option SigVerifier
    pub root_certs : Option Certificates
    pub intermediate_certs : Option Certificates
    pub rekor_client : Option RekorClient

  abbrev pub no_options : VerifierOptions
  no_options = record { public_key = []; remote = none }

  unfoldable pub HasNoKey : List VerifierOption → Type 0
  HasNoKey [] = Unit
  HasNoKey (with_public_key key ∷ more) = ⊥
  HasNoKey (with_remote_options remote ∷ more) = HasNoKey more

  unfoldable pub or_fail : {A : Type 0} → VerifierError → Option A → Result VerifierError A
  or_fail e none = err e
  or_fail e (some a) = ok a

  unfoldable pub client_of : Option (List RemoteOption) → ClientOptions → ClientOptions
  client_of none client = client
  client_of (some remote) client = lib.with_remote client remote

  -- The two ways to verify: with a public key, and without one
  unfoldable pub keyed : Text → ClientOptions → Result VerifierError CheckOptions
  unfolding or_fail
  keyed key client = do
    public ← or_fail bad_public_key (lib.unmarshal_key key)
    verifier ← or_fail no_sig_verifier (lib.load_verifier public)
    ok (record {
      client = client;
      sig_verifier = some verifier;
      root_certs = none;
      intermediate_certs = none;
      rekor_client = none;
    })

  unfoldable pub keyless : ClientOptions → Result VerifierError CheckOptions
  unfolding or_fail
  keyless client = do
    roots ← or_fail no_fulcio_roots lib.roots
    intermediates ← or_fail no_intermediates lib.intermediates
    rekor ← or_fail no_rekor_client lib.rekor
    ok (record {
      client = client;
      sig_verifier = none;
      root_certs = some roots;
      intermediate_certs = some intermediates;
      rekor_client = some rekor;
    })

  -- `NewCosignVerifier`
  unfoldable pub new_cosign_verifier : List VerifierOption → Result VerifierError CheckOptions
  unfolding keyed keyless client_of apply_options
  new_cosign_verifier options =
      let o = apply_options options no_options in
      or_fail no_client_options lib.client_options >>= λ client.
      if is_empty o.public_key
      then keyless (client_of o.remote client)
      else keyed o.public_key (client_of o.remote client)

  -- `Verify`; `verify_signatures` is `cosign.VerifyImageSignatures`.
  unfoldable pub verify_image :
      (CheckOptions → Reference → Option (List Signature))
      → CheckOptions
      → Reference
      → Result VerifierError Bool
  verify_image verify_signatures v ref = elim (verify_signatures v ref) [
    | none ↦ err verify_failed
    | some [] ↦ ok false
    | some (_ ∷ _) ↦ ok true
  ]

  -- The key of the last option that gives one, and the options of the registry of the last that does
  unfoldable pub LastKey : List VerifierOption → Text → Type 0
  LastKey options key =
      ((before after : List VerifierOption) × (options ≡ before ++ (with_public_key key ∷ after))
        × HasNoKey after)
      ⊎ (HasNoKey options × (key ≡ []))

  -- What a verifier trusts: with a key that is not empty, what cosign makes of this key and nothing
  -- else; without one, the roots, the intermediates and the log of the public service, and no key
  pub Trusts : Text → CheckOptions → Type 0
  Trusts key v =
      ((key ≢ [])
        × (public : PublicKey) × (verifier : SigVerifier) × (lib.unmarshal_key key ≡ some public)
        × (lib.load_verifier public ≡ some verifier)
        × (v.sig_verifier ≡ some verifier)
        × (v.root_certs ≡ none)
        × (v.intermediate_certs ≡ none)
        × (v.rekor_client ≡ none))
      ⊎ ((key ≡ [])
          × (roots : Certificates) × (intermediates : Certificates) × (rekor : RekorClient)
          × (lib.roots ≡ some roots)
          × (lib.intermediates ≡ some intermediates)
          × (lib.rekor ≡ some rekor)
          × (v.sig_verifier ≡ none)
          × (v.root_certs ≡ some roots)
          × (v.intermediate_certs ≡ some intermediates)
          × (v.rekor_client ≡ some rekor))

  key-HasNoKey :
      (options : List VerifierOption) (o : VerifierOptions)
      → HasNoKey options
      → (apply_options options o).public_key ≡ o.public_key
  unfolding apply_options apply_option HasNoKey
  key-HasNoKey [] o no_key = refl
  key-HasNoKey (with_public_key key ∷ more) o no_key = absurd no_key
  key-HasNoKey (with_remote_options remote ∷ more) o no_key =
      key-HasNoKey more (record o { remote = remote }) no_key

  key-last :
      (before after : List VerifierOption) (key : Text) (o : VerifierOptions)
      → HasNoKey after
      → (apply_options (before ++ (with_public_key key ∷ after)) o).public_key ≡ key
  unfolding apply_options apply_option
  key-last [] after key o no_key = key-HasNoKey after (record o { public_key = key }) no_key
  key-last (option ∷ before) after key o no_key =
      key-last before after key (apply_option option o) no_key

  key-LastKey :
      (options : List VerifierOption) (key : Text)
      → LastKey options key
      → (apply_options options no_options).public_key ≡ key
  unfolding LastKey
  key-LastKey options key (inl (before, after, e, no_key)) =
      rw e (key-last before after key no_options no_key)
  key-LastKey options key (inr (no_key, e)) = key-HasNoKey options no_options no_key ∙ sym e

  keyed-Trusts :
      (key : Text) (client : ClientOptions) (v : CheckOptions)
      → key ≢ []
      → (keyed key client ≡ ok v) ↔ (Trusts key v × (v.client ≡ client))
  unfolding keyed or_fail Trusts
  keyed-Trusts key client v given = (
    λ h. elim (Option-cases (lib.unmarshal_key key)) [
      | inl bad ↦ absurd (ground arith)
      | inr (public, u) ↦ elim (Option-cases (lib.load_verifier public)) [
        | inl bad ↦ absurd (ground arith)
        | inr (verifier, l) ↦ (
          inl (
            given,
            public,
            verifier,
            u,
            l,
            ground arith,
            ground arith,
            ground arith,
            ground arith,
          ),
          ground arith,
        )
      ]
    ],
    λ (trusts, same). elim trusts [
      | inl (given, public, verifier, u, l, a, b, c, d) ↦ ground arith
      | inr (empty, _, _, _, _, _, _, _, _, _, _) ↦ absurd (given empty)
    ],
  )

  keyless-Trusts :
      (client : ClientOptions) (v : CheckOptions)
      → (keyless client ≡ ok v) ↔ (Trusts [] v × (v.client ≡ client))
  unfolding keyless or_fail Trusts
  keyless-Trusts client v = (
    λ h. elim (Option-cases lib.roots) [
      | inl no_roots ↦ absurd (ground arith)
      | inr (roots, r) ↦ elim (Option-cases lib.intermediates) [
        | inl no_certs ↦ absurd (ground arith)
        | inr (certs, c) ↦ elim (Option-cases lib.rekor) [
          | inl no_log ↦ absurd (ground arith)
          | inr (log, l) ↦ (
            inr (
              refl,
              roots,
              certs,
              log,
              r,
              c,
              l,
              ground arith,
              ground arith,
              ground arith,
              ground arith,
            ),
            ground arith,
          )
        ]
      ]
    ],
    λ (trusts, same). elim trusts [
      | inl (given, _, _, _, _, _, _, _, _) ↦ absurd (given refl)
      | inr (empty, roots, certs, log, r, c, l, x, y, z, t) ↦ ground arith
    ],
  )

  pub new_cosign_verifier_iff :
      (options : List VerifierOption) (key : Text) (client : ClientOptions) (v : CheckOptions)
      → LastKey options key
      → lib.client_options ≡ some client
      → (new_cosign_verifier options ≡ ok v)
        ↔ (Trusts key v × (v.client ≡ client_of (apply_options options no_options).remote client))
  unfolding new_cosign_verifier or_fail
  new_cosign_verifier_iff options key client v last has =
      let o = apply_options options no_options in
      let e : o.public_key ≡ key = key-LastKey options key last in
      elim (List-cases key) [
        | inl empty ↦ rw (has, e, empty) (keyless-Trusts (client_of o.remote client) v)
        | inr (b, bs, is) ↦
            rw (has, e, is)
              (keyed-Trusts (b ∷ bs) (client_of o.remote client) v (λ same. ground arith))
      ]
