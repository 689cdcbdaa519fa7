-- ===== src/App/Files.antt =====
-- What internal/app uses of the package os: a file system with some state, and its laws.
use merch.Base.{[], ◌++◌, String, Bool, false, ◌≡◌, ◌≢◌, refl, ap}
use merch.Go.Errors.{Error, Result, ok, err, panic, wrap_result}
use merch.Go.Results.{wrap_result-eq-ok}
use merch.Postgres.Schema.{Bytes}

-- what reads or changes the state of the file system
abbrev pub FileAction : Type 0 → Type 0 → Type 0
FileAction S A = S → Result A × S

pub record FileSystem (S : Type 0) : Type 0 where
  -- os.Stat; only its error matters
  pub stat : String → S → Result Unit
  pub read_file : String → S → Result Bytes
  -- os.WriteFile and os.MkdirAll, for their owner alone
  pub write_file : String → Bytes → FileAction S Unit
  pub mkdir_all : String → FileAction S Unit
  -- os.Create, and a write to the end of the file that it opened
  pub create : String → FileAction S Unit
  pub append : String → Bytes → FileAction S Unit
  -- filepath.Dir
  pub dir : String → String
  -- do two paths lead to one file?
  pub same_file : String → String → Bool
  -- what has been written is read
  pub read-write :
      (name : String) (content : Bytes) (s s' : S)
      → write_file name content s ≡ (ok tt, s')
      → read_file name s' ≡ ok content
  pub stat-write :
      (name : String) (content : Bytes) (s s' : S)
      → write_file name content s ≡ (ok tt, s')
      → stat name s' ≡ ok tt
  -- a write leaves every other file as it is, and a new directory leaves them all
  pub read-write-other :
      (name other : String) (content old : Bytes) (s : S)
      → same_file name other ≡ false
      → read_file other s ≡ ok old
      → read_file other (write_file name content s).1 ≡ ok old
  pub stat-write-other :
      (name other : String) (content : Bytes) (s : S)
      → same_file name other ≡ false
      → stat other s ≡ ok tt
      → stat other (write_file name content s).1 ≡ ok tt
  pub stat-mkdir_all :
      (name other : String) (s : S) → stat other s ≡ ok tt → stat other (mkdir_all name s).1 ≡ ok tt
  pub read-mkdir_all :
      (name other : String) (old : Bytes) (s : S)
      → read_file other s ≡ ok old
      → read_file other (mkdir_all name s).1 ≡ ok old
  -- a file that has been created is empty, and a write adds to it
  pub read-create :
      (name : String) (s s' : S) → create name s ≡ (ok tt, s') → read_file name s' ≡ ok []
  pub read-append :
      (name : String) (old content : Bytes) (s s' : S)
      → append name content s ≡ (ok tt, s')
      → read_file name s ≡ ok old
      → read_file name s' ≡ ok (old ++ content)
  pub read-create-other :
      (name other : String) (old : Bytes) (s : S)
      → same_file name other ≡ false
      → read_file other s ≡ ok old
      → read_file other (create name s).1 ≡ ok old
  pub read-append-other :
      (name other : String) (content old : Bytes) (s : S)
      → same_file name other ≡ false
      → read_file other s ≡ ok old
      → read_file other (append name content s).1 ≡ ok old

abbrev pub continue : {S A B : Type 0} → Result A × S → (A → FileAction S B) → Result B × S
continue (ok a, s) f = f a s
continue (err e, s) f = (err e, s)
continue (panic, s) f = (panic, s)

infixl 5 ◌>>=◌ ◌>>◌
abbrev pub ◌>>=◌ : {S A B : Type 0} → FileAction S A → (A → FileAction S B) → FileAction S B
◌>>=◌ m f s = continue (m s) f

abbrev pub ◌>>◌ : {S A B : Type 0} → FileAction S A → FileAction S B → FileAction S B
m >> k = m >>= λ _. k

abbrev pub lift : {S A : Type 0} → Result A → FileAction S A
lift r s = (r, s)

abbrev pub wrapped : {S A : Type 0} → String → FileAction S A → FileAction S A
wrapped p m s = let (r, s') = m s in (wrap_result p r, s')

pub err_ne_ok : {A : Type 0} (e : Error) (a : A) → ◌≢◌ {A = Result A} (err e) (ok a)
err_ne_ok e a h = cc

pub panic_ne_ok : {A : Type 0} (a : A) → ◌≢◌ {A = Result A} panic (ok a)
panic_ne_ok a h = cc

-- A chain that returns went through its first step, and then the rest.
pub >>=-eq-ok :
    {S A B : Type 0} (m : FileAction S A) (f : A → FileAction S B) (b : B) (s s' : S)
    → (m >>= f) s ≡ (ok b, s')
    → (a : A) × (t : S) × (m s ≡ (ok a, t)) × (f a t ≡ (ok b, s'))
>>=-eq-ok {S} {A} {B} m f b s s' h = go (m s) h
  where
    go :
        (x : Result A × S)
        → continue x f ≡ (ok b, s')
        → (a : A) × (t : S) × (x ≡ (ok a, t)) × (f a t ≡ (ok b, s'))
    go (ok a, t) e = (a, t, refl, e)
    go (err y, t) e = absurd (err_ne_ok y b (ap (λ x. x.0) e))
    go (panic, t) e = absurd (panic_ne_ok b (ap (λ x. x.0) e))

pub wrapped-eq-ok :
    {S A : Type 0} (p : String) (m : FileAction S A) (a : A) (s s' : S)
    → wrapped p m s ≡ (ok a, s')
    → m s ≡ (ok a, s')
wrapped-eq-ok {S} {A} p m a s s' h = go (m s) h
  where
    go :
        (x : Result A × S)
        → ◌≡◌ {A = Result A × S} (wrap_result p x.0, x.1) (ok a, s')
        → x ≡ (ok a, s')
    go (r, t) e i = ((wrap_result-eq-ok p a r (ap (λ x. x.0) e)) i, (e i).1)
