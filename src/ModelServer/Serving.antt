-- ===== src/ModelServer/Serving.antt =====
-- What the start of the model server promises for its requests.
use neura_balancer.Common.{
  ℕ, suc, ◌+◌, ◌≤◌, ◌≡◌, ◌≢◌, refl, sym, ap, ◌∙◌, subst, Bool-cases, true, inl, inr, Option, none,
  some, List, [], ◌∷◌, length, All, get_elem?_total, arith,
}
use neura_balancer.ModelServer.{
  Arithmetic, Scaler, ScalerError, validate, normalize_one, normalize_from, normalize, Inference,
  no_input_tensor, no_output_tensor, run_failed, output, Predicted, score, failed, panics,
  ModelServer, read_output, infer, predict, PredictServer, Body, not_read, not_json, request, Reply,
  http_error, predictions, panicked, features_of, push_score, predict_all, answer, handle_predict,
  Startup, Started, started, start_failed, check_scaler, load_scaler, new_model_server,
}

validate-lengths :
    {F : Type 0} (sc : Scaler F) → validate sc ≡ none → (length sc.mean ≡ 6) × (length sc.scale ≡ 6)
unfolding validate
validate-lengths sc h = ground arith

-- A model server that can take requests.
abbrev pub IsReady : {F : Type 0} → ModelServer F → Type 0
IsReady ms = (validate ms.sc ≡ none) × (ms.loaded ≡ true)

abbrev StartsReady : {F : Type 0} → Started F → Type 0
StartsReady (started ms) = IsReady ms
StartsReady (start_failed e) = Unit

check_scaler-StartsReady :
    {F : Type 0} (sc : Scaler F) (e : Option ScalerError) (session : Option (List F → Inference F))
    → validate sc ≡ e
    → StartsReady (check_scaler sc e session)
check_scaler-StartsReady sc (some e) session h = tt
check_scaler-StartsReady sc none none h = tt
check_scaler-StartsReady sc none (some session) h = (h, refl)

load_scaler-StartsReady :
    {F : Type 0} (raw : Option (Option (Scaler F))) (session : Option (List F → Inference F))
    → StartsReady (load_scaler raw session)
unfolding load_scaler
load_scaler-StartsReady none session = tt
load_scaler-StartsReady (some none) session = tt
load_scaler-StartsReady (some (some sc)) session =
    check_scaler-StartsReady sc (validate sc) session refl

new_model_server-StartsReady :
    {F : Type 0} (world : Startup F) → StartsReady (new_model_server world)
unfolding new_model_server
new_model_server-StartsReady world = elim (Bool-cases world.files_exist) [
  | inl exist ↦ rw exist (load_scaler-StartsReady world.raw_scaler world.session)
  | inr missing ↦ rw missing tt
]

-- A server that starts can take requests.
pub new_model_server-IsReady :
    {F : Type 0} (world : Startup F) {ms : ModelServer F}
    → new_model_server world ≡ started ms
    → IsReady ms
new_model_server-IsReady world h = subst StartsReady h (new_model_server-StartsReady world)

module _ {F : Type 0} (ar : Arithmetic F) where
  normalize_one_total :
      (f : F) (s m : F) → (a : F) × (normalize_one ar f (some s) (some m) ≡ some a)
  unfolding normalize_one
  normalize_one_total f s m = elim (Bool-cases (ar.is_zero s)) [
    | inl zero_scale ↦ (ar.zero_value, rw zero_scale)
    | inr scaled ↦ (ar.div (ar.sub f m) s, rw scaled)
  ]

  normalize_from_total :
      (sc : Scaler F) (i : ℕ) (fs : List F)
      → i + length fs ≤ length sc.mean
      → i + length fs ≤ length sc.scale
      → (norm : List F) × (normalize_from ar sc i fs ≡ some norm)
  unfolding normalize_from
  normalize_from_total sc i [] hm hs = ([], refl)
  normalize_from_total sc i (f ∷ fs) hm hs =
      let (m, em) = get_elem?_total sc.mean i (omega arith) in
      let (s, es) = get_elem?_total sc.scale i (omega arith) in
      let (a, ea) = normalize_one_total f s m in
      let (rest, er) = normalize_from_total sc (suc i) fs (omega arith) (omega arith) in
      (a ∷ rest, rw (em, es, ea, er))

  normalize_total :
      (sc : Scaler F) (srv : PredictServer F)
      → validate sc ≡ none
      → (norm : List F) × (normalize ar sc (features_of ar srv) ≡ some norm)
  unfolding normalize features_of
  normalize_total sc srv h =
      let (m, s) = validate-lengths sc h in
      normalize_from_total sc 0 (features_of ar srv) (omega arith) (omega arith)

  predict_reads :
      (ms : ModelServer F) (srv : PredictServer F)
      → validate ms.sc ≡ none
      → (norm : List F) × (predict ar ms (features_of ar srv) ≡ read_output (ms.session norm))
  unfolding predict infer
  predict_reads ms srv h = let (norm, e) = normalize_total ms.sc srv h in (norm, ap (infer ms) e)

  read_output-calm : (x : Inference F) → read_output x ≢ panics
  unfolding read_output
  read_output-calm no_input_tensor e = cc
  read_output-calm no_output_tensor e = cc
  read_output-calm run_failed e = cc
  read_output-calm (output []) e = cc
  read_output-calm (output (f ∷ fs)) e = cc

  push_score-calm :
      (p : Predicted F) (rest : Reply F)
      → p ≢ panics
      → rest ≢ panicked
      → push_score ar p rest ≢ panicked
  push_score-calm panics rest hp hr e = hp refl
  push_score-calm (failed err) rest hp hr e = cc
  push_score-calm (score f) (predictions fs) hp hr e = cc
  push_score-calm (score f) (http_error status) hp hr e = cc
  push_score-calm (score f) panicked hp hr e = hr refl

  predict_all-calm :
      (ms : ModelServer F) (srvs : List (PredictServer F))
      → validate ms.sc ≡ none
      → predict_all ar ms srvs ≢ panicked
  unfolding predict_all
  predict_all-calm ms [] h = ground arith
  predict_all-calm ms (srv ∷ srvs) h =
      let (norm, e) = predict_reads ms srv h in
      push_score-calm _ _ (λ p. read_output-calm (ms.session norm) (sym e ∙ p))
        (predict_all-calm ms srvs h)

  -- The runtime answers every input with data, and the score in it is a number.
  abbrev pub Answers : (F → Type 0) → (List F → Inference F) → Type 0
  Answers IsNumber session =
      (norm : List F) → (f : F) × (fs : List F) × (session norm ≡ output (f ∷ fs)) × IsNumber f

  predict_scores :
      (IsNumber : F → Type 0) (ms : ModelServer F) (srv : PredictServer F)
      → validate ms.sc ≡ none
      → Answers IsNumber ms.session
      → (f : F) × (predict ar ms (features_of ar srv) ≡ score f) × IsNumber f
  unfolding read_output
  predict_scores IsNumber ms srv h works =
      let (norm, e) = predict_reads ms srv h in
      let (f, fs, out, number) = works norm in (f, e ∙ rw out, number)

  predict_all_total :
      (IsNumber : F → Type 0) (ms : ModelServer F) (srvs : List (PredictServer F))
      → validate ms.sc ≡ none
      → Answers IsNumber ms.session
      → (fs : List F) × (predict_all ar ms srvs ≡ predictions fs)
        × (length fs ≡ length srvs)
        × All IsNumber fs
  unfolding predict_all
  predict_all_total IsNumber ms [] h works = ([], refl, refl, tt)
  predict_all_total IsNumber ms (srv ∷ srvs) h works =
      let (f, e, number) = predict_scores IsNumber ms srv h works in
      let (fs, es, n, numbers) = predict_all_total IsNumber ms srvs h works in
      (f ∷ fs, rw (e, es), ap suc n, (number, numbers))

  ready_handles :
      (ms : ModelServer F) (body : Body F)
      → ms.loaded ≡ true
      → handle_predict ar (some ms) body ≡ answer ar ms body
  unfolding handle_predict
  ready_handles ms body h = rw h

  answer-calm :
      (ms : ModelServer F) (body : Body F) → validate ms.sc ≡ none → answer ar ms body ≢ panicked
  unfolding answer
  answer-calm ms not_read h e = cc
  answer-calm ms not_json h e = cc
  answer-calm ms (request []) h e = cc
  answer-calm ms (request (srv ∷ srvs)) h e = predict_all-calm ms (srv ∷ srvs) h e

  -- A model server that has started does not panic on a request, whatever its body and whatever
  -- the runtime answers.
  pub handle_predict-calm :
      (world : Startup F) {ms : ModelServer F} (body : Body F)
      → new_model_server world ≡ started ms
      → handle_predict ar (some ms) body ≢ panicked
  handle_predict-calm world {ms} body h e =
      let (valid, loaded) = new_model_server-IsReady world h in
      answer-calm ms body valid (sym (ready_handles ms body loaded) ∙ e)

  -- A model server that has started, and whose runtime answers every input with a number, answers
  -- a request that names a server with one number for each server.
  pub handle_predict-total :
      (IsNumber : F → Type 0) (world : Startup F) {ms : ModelServer F} (srv : PredictServer F)
      (srvs : List (PredictServer F))
      → new_model_server world ≡ started ms
      → Answers IsNumber ms.session
      → (fs : List F) × (handle_predict ar (some ms) (request (srv ∷ srvs)) ≡ predictions fs)
        × (length fs ≡ length (srv ∷ srvs))
        × All IsNumber fs
  unfolding answer
  handle_predict-total IsNumber world {ms} srv srvs h works =
      let (valid, loaded) = new_model_server-IsReady world h in
      let (fs, e, n, numbers) = predict_all_total IsNumber ms (srv ∷ srvs) valid works in
      (fs, ready_handles ms (request (srv ∷ srvs)) loaded ∙ e, n, numbers)
