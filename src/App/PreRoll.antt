-- ===== src/App/PreRoll.antt =====
-- main/app_main.cpp, `StreamingTask`: the pre-roll that it takes from the ring buffer, and the
-- bytes of it that it sends.
use vaani_edge.Base.{
  ℕ, ◌*◌, ◌≤◌, ◌≡◌, refl, ap, ◌∙◌, Bool, true, false, some, List, [], ◌++◌, arith, length, take,
  drop, min, length-append, length-drop, take-append_left, ◌-◌,
}
use vaani_edge.Config.{pre_roll_samples}
use vaani_edge.Ring
use vaani_edge.Ring.{RingBuffer, give_mutex}
use vaani_edge.Ring.Total.{get_last_refused}
use vaani_edge.Ring.Valid.{IsValid}
use vaani_edge.Ring.Contents.{contents, keep_last, length-contents}
use vaani_edge.Ring.Pop.{get_last-keep_last}
use vaani_edge.Transport.{sample_bytes}
use vaani_edge.Transport.Messages.{length-sample_bytes}
use vaani_edge.Transport.Reliable.{sample_bytes-append}

-- The newest samples of the buffer, where its mutex is granted.
abbrev pub pre_roll : Bool → RingBuffer ℕ → List ℕ
pre_roll false r = []
pre_roll true r = keep_last (min pre_roll_samples r.filled) (contents r)

-- The first samples of an array, as bytes.
take-sample_bytes :
    (xs ys : List ℕ) → take (length xs * 2) (sample_bytes (xs ++ ys)) ≡ sample_bytes xs
take-sample_bytes xs ys =
    rw (sample_bytes-append xs ys)
      (take-append_left (sample_bytes xs) (sample_bytes ys) _ (length-sample_bytes xs))

-- What the `GetLast` of the pre-roll leaves: the buffer, the array and the count.
pub record IsPreRoll (granted : Bool) (r r' : RingBuffer ℕ) (buffer : List ℕ) (count : ℕ)
    : Type 0 where
  pub valid : IsValid r'
  pub same_size : length buffer ≡ pre_roll_samples
  pub all : count ≡ length (pre_roll granted r)
  pub fits : count ≤ pre_roll_samples
  pub bytes : take (count * 2) (sample_bytes buffer) ≡ sample_bytes (pre_roll granted r)

pub get_last-IsPreRoll :
    (granted : Bool) (r : RingBuffer ℕ) (out : List ℕ)
    → IsValid r
    → length out ≡ pre_roll_samples
    → (r' : RingBuffer ℕ) × (buffer : List ℕ) × (count : ℕ) × (Ring.get_last granted
          (some out)
          pre_roll_samples
          r
        ≡ some (r', buffer, count))
      × IsPreRoll granted r r' buffer count
unfolding sample_bytes
get_last-IsPreRoll false r out v size = (
  r,
  out,
  0,
  get_last_refused r out pre_roll_samples,
  record { valid = v; same_size = size; all = refl; fits = omega arith; bytes = refl },
)
get_last-IsPreRoll true r out v size =
    let k : ℕ = min pre_roll_samples r.filled in
    let held : length (keep_last k (contents r)) ≡ k =
      omega (arith, length-drop (length (contents r) - k) (contents r), length-contents r v) in
    (
      give_mutex r,
      keep_last k (contents r) ++ drop k out,
      k,
      get_last-keep_last r out pre_roll_samples v (omega arith) (omega (arith, size)),
      record {
        valid = ground arith;
        same_size = omega (
          arith,
          length-append (keep_last k (contents r)) (drop k out),
          length-drop k out,
          held,
          size,
        );
        all = omega (arith, held);
        fits = omega arith;
        bytes =
            ap (λ (i : ℕ). take (i * 2) (sample_bytes (keep_last k (contents r) ++ drop k out)))
              (omega (arith, held))
            ∙ take-sample_bytes (keep_last k (contents r)) (drop k out);
      },
    )
