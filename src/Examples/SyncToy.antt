-- ===== src/Examples/SyncToy.antt =====
-- A document format for the remote state, to run the examples.
use desktop_mdm.Prelude.{
  ℕ, ◌≡◌, refl, ◌∙◌, Option, none, some, List, [], ◌∷◌, ◌++◌, length, take, drop, take-append,
  drop-append, subst,
}
use mathlib.Core.Option.{some-injective}
use desktop_mdm.Api.{LockStateKind, unlocked, warning, locked, permanently_released}
use desktop_mdm.RemoteSync.{SecuredRemoteState}
use desktop_mdm.Extern.{Json, IsJson}
use desktop_mdm.Storage.{ApiActivity}

unfoldable pub put : List ℕ → List ℕ → List ℕ
put xs rest = length xs ∷ (xs ++ rest)

unfoldable pub get : {A : Type 0} → (List ℕ → List ℕ → Option A) → List ℕ → Option A
get k [] = none
get k (n ∷ rest) = k (take n rest) (drop n rest)

pub get-put :
    {A : Type 0} (k : List ℕ → List ℕ → Option A) (xs rest : List ℕ)
    → get k (put xs rest) ≡ k xs rest
unfolding get put
get-put k xs rest =
    rw (take-append (length xs) xs rest refl, drop-append (length xs) xs rest refl) refl

unfoldable pub put_option : Option (List ℕ) → List ℕ → List ℕ
put_option none rest = 0 ∷ rest
put_option (some xs) rest = 1 ∷ put xs rest

unfoldable pub get_option : {A : Type 0} → (Option (List ℕ) → List ℕ → Option A) → List ℕ → Option A
get_option k [] = none
get_option k (ℕ.zero ∷ rest) = k none rest
get_option k (ℕ.suc n ∷ rest) = get (λ xs r. k (some xs) r) rest

pub get-put_option :
    {A : Type 0} (k : Option (List ℕ) → List ℕ → Option A) (o : Option (List ℕ)) (rest : List ℕ)
    → get_option k (put_option o rest) ≡ k o rest
unfolding get_option put_option
get-put_option k none rest = refl
get-put_option k (some xs) rest = get-put (λ ys r. k (some ys) r) xs rest

unfoldable pub put_all : List (List ℕ) → List ℕ → List ℕ
put_all [] rest = rest
put_all (xs ∷ xss) rest = put xs (put_all xss rest)

unfoldable pub get_all : {A : Type 0} → ℕ → (List (List ℕ) → List ℕ → Option A) → List ℕ → Option A
get_all ℕ.zero k rest = k [] rest
get_all (ℕ.suc n) k rest = get (λ xs r. get_all n (λ xss q. k (xs ∷ xss) q) r) rest

get-put_all :
    {A : Type 0} (k : List (List ℕ) → List ℕ → Option A) (xss : List (List ℕ)) (rest : List ℕ)
    → get_all (length xss) k (put_all xss rest) ≡ k xss rest
unfolding get_all put_all
get-put_all k [] rest = refl
get-put_all k (xs ∷ xss) rest =
    get-put (λ ys r. get_all (length xss) (λ yss q. k (ys ∷ yss) q) r) xs (put_all xss rest)
    ∙ get-put_all (λ yss q. k (xs ∷ yss) q) xss rest

unfoldable pub kind_code : LockStateKind → ℕ
kind_code unlocked = 0
kind_code warning = 1
kind_code locked = 2
kind_code permanently_released = 3

unfoldable pub kind_of : ℕ → LockStateKind
kind_of ℕ.zero = unlocked
kind_of (ℕ.suc ℕ.zero) = warning
kind_of (ℕ.suc (ℕ.suc ℕ.zero)) = locked
kind_of _ = permanently_released

kind_of-kind_code : (k : LockStateKind) → kind_of (kind_code k) ≡ k
unfolding kind_of kind_code
kind_of-kind_code unlocked = refl
kind_of-kind_code warning = refl
kind_of-kind_code locked = refl
kind_of-kind_code permanently_released = refl

abbrev pub encode : SecuredRemoteState → List ℕ
encode s =
    kind_code s.remote.lock_state.state
    ∷ s.remote.lock_state.changed_at
    ∷ s.remote.checked_at
    ∷ s.remote.server_time
    ∷ s.command_security.highest_patch_version
    ∷ length s.command_security.consumed_nonce_sha256
    ∷ put s.remote.device_uuid (
        put s.remote.lock_state.reason (
          put_option s.command_security.last_patch_uuid (
            put_option s.command_security.last_command_uuid (
              put_option s.command_security.last_message_sha256
                (put_all s.command_security.consumed_nonce_sha256 [])))))

abbrev build :
    ℕ
    → ℕ
    → ℕ
    → ℕ
    → ℕ
    → List ℕ
    → List ℕ
    → Option (List ℕ)
    → Option (List ℕ)
    → Option (List ℕ)
    → List (List ℕ)
    → List ℕ
    → Option SecuredRemoteState
build kind changed checked server version device reason patch command message nonces rest =
    some (record {
      remote = record {
        device_uuid = device;
        lock_state = record { state = kind_of kind; reason = reason; changed_at = changed };
        checked_at = checked;
        server_time = server;
      };
      command_security = record {
        highest_patch_version = version;
        last_patch_uuid = patch;
        last_command_uuid = command;
        last_message_sha256 = message;
        consumed_nonce_sha256 = nonces;
      };
    })

abbrev pub decode : List ℕ → Option SecuredRemoteState
decode (kind ∷ changed ∷ checked ∷ server ∷ version ∷ n ∷ rest) =
    get
      (λ device r1.
        get
          (λ reason r2.
            get_option
              (λ patch r3.
                get_option
                  (λ command r4.
                    get_option
                      (λ message r5.
                        get_all n
                          (build kind changed checked server version device reason patch command
                            message)
                          r5)
                      r4)
                  r3)
              r2)
          r1)
      rest
decode _ = none

decode-encode : (s : SecuredRemoteState) → decode (encode s) ≡ some s
decode-encode s =
    rw
      (
        get-put, get-put, get-put_option, get-put_option, get-put_option, get-put_all,
        kind_of-kind_code,
      )
      refl

abbrev pub secured_json : Json SecuredRemoteState
secured_json = record { to_vec = λ s. some (encode s); from_slice = decode }

pub secured_json-IsJson : IsJson secured_json
secured_json-IsJson = record {
  from_slice-to_vec =
      λ s bs h. subst (λ x. decode x ≡ some s) (some-injective _ _ h) (decode-encode s);
}

-- No activity file is ever written.
abbrev pub activity_json : Json ApiActivity
activity_json = record { to_vec = λ a. none; from_slice = λ bs. none }
