-- ===== src/Store/Codec/Chains.antt =====
-- What a chain of readings that has returned has read.
use work_smt.Base.{◌∷◌, ◌∙◌, refl, false, ap, true, [], ◌≡◌, Bool}
use work_smt.Base.Results.{◌>>=◌, ok-injective, >>=-eq-ok, ok}
use work_smt.Store.Codec.{accept, give, finish, StoreError, Reader, ◌>>>◌, load_all}
use work_smt.Base.Bytes.{Bytes}

pub >>>-eq-ok :
    {A B : Type 0} (p : Reader A) (f : A → Reader B) {bytes rest : Bytes} {b : B}
    → (p >>> f) bytes ≡ ok (b, rest)
    → (a : A) × (middle : Bytes) × (p bytes ≡ ok (a, middle)) × (f a middle ≡ ok (b, rest))
unfolding ◌>>>◌
>>>-eq-ok p f {bytes = bytes} h = let (x, e, k) = >>=-eq-ok (p bytes) _ h in (x.0, x.1, e, k)

pub accept-eq-ok :
    {A : Type 0} (test : Bool) (error : StoreError) (a : A) {b : A} (bytes : Bytes) {rest : Bytes}
    → accept test error a bytes ≡ ok (b, rest)
    → (test ≡ true) × (a ≡ b) × (bytes ≡ rest)
accept-eq-ok true error a bytes h =
    let e = ok-injective h in (refl, ap (λ x. x.0) e, ap (λ x. x.1) e)
accept-eq-ok false error a bytes h = cc

pub give-eq-ok :
    {A : Type 0} (a : A) {b : A} (bytes : Bytes) {rest : Bytes}
    → give a bytes ≡ ok (b, rest)
    → (a ≡ b) × (bytes ≡ rest)
give-eq-ok a bytes h = let e = ok-injective h in (ap (λ x. x.0) e, ap (λ x. x.1) e)

finish-eq-ok :
    {A : Type 0} (rest : Bytes) (x : A) {a : A}
    → (finish rest >>= λ _. ok x) ≡ ok a
    → (rest ≡ []) × (x ≡ a)
unfolding finish
finish-eq-ok [] x h = (refl, ok-injective h)
finish-eq-ok (b ∷ rest) x h = cc

-- A loading that has returned has read everything.
pub load_all-eq-ok :
    {A : Type 0} (p : Reader A) (content : Bytes) {a : A}
    → load_all p content ≡ ok a
    → p content ≡ ok (a, [])
unfolding load_all finish
load_all-eq-ok p content h =
    let (x, e, k) = >>=-eq-ok (p content) _ h in
    let (n, s) = finish-eq-ok x.1 x.0 k in e ∙ ap (λ z. ok (x.0, z)) n ∙ ap (λ z. ok (z, [])) s
