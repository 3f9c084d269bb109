-- ===== src/App/Started.antt =====
-- main/app_main.cpp, `WifiInit` and `app_main`: what the program comes to at its start, by the
-- answers of the calls of ESP-IDF.
use vaani_edge.Base.{
  ℕ, ◌-◌, ◌≡◌, ◌≢◌, refl, ap, sym, ◌∙◌, ◌++◌, append_assoc, append-nil, ◌⊎◌, inl, inr, ◌==◌, ◌||◌,
  Bool, true, false, List, [], ◌∷◌, if◌then◌else◌, arith, Bool-cases,
}
use vaani_edge.Config.{wifi_ssid, wifi_password}
use vaani_edge.App.Setup.{
  Esp, Outcome, running, restarted, Task, audio_capture_task, kws_task, streaming_task,
  metrics_task, error_check, strncpy, init_nvs, wifi_init, create, app_main,
}

module _ {W : Type 0} where
  -- The calls in turn, from `w` to `v`, all without an error.
  abbrev pub Runs : List (W → ℕ × W) → W → W → Type 0
  Runs [] w v = w ≡ v
  Runs (c ∷ cs) w v = ((c w).0 ≡ 0) × Runs cs (c w).1 v

  -- The same up to the first error, which leaves `v`; the calls behind it are not made.
  abbrev pub Stops : List (W → ℕ × W) → W → W → Type 0
  Stops [] w v = ⊥
  Stops (c ∷ cs) w v = (((c w).0 ≢ 0) × ((c w).1 ≡ v)) ⊎ (((c w).0 ≡ 0) × Stops cs (c w).1 v)

  -- The calls, each under `ESP_ERROR_CHECK`.
  abbrev checked : List (W → ℕ × W) → Outcome W → Outcome W
  checked [] o = o
  checked (c ∷ cs) o = checked cs (error_check c o)

  checked-restarted : (cs : List (W → ℕ × W)) (v : W) → checked cs (restarted v) ≡ restarted v
  unfolding error_check
  checked-restarted [] v = refl
  checked-restarted (c ∷ cs) v = checked-restarted cs v

  checked_lem :
      (cs : List (W → ℕ × W)) (w : W)
      → ((v : W) × (checked cs (running w) ≡ running v) × Runs cs w v)
        ⊎ ((v : W) × (checked cs (running w) ≡ restarted v) × Stops cs w v)
  unfolding error_check
  checked_lem [] w = inl (w, refl, refl)
  checked_lem (c ∷ cs) w = elim (Bool-cases ((c w).0 == 0)) [
    | inl fine ↦
        let no_error : (c w).0 ≡ 0 = ground arith in
        elim (checked_lem cs (c w).1) [
          | inl (v, e, runs) ↦ inl (v, rw fine e, (no_error, runs))
          | inr (v, e, stops) ↦ inr (v, rw fine e, inr (no_error, stops))
        ]
    | inr failed ↦
        inr ((c w).1, rw failed (checked-restarted cs (c w).1), inl ((λ e. ground arith), refl))
  ]

module _ (esp : Esp) where
  open esp use {World}

  -- The calls behind those for the flash.
  abbrev wifi_calls : List ℕ → List ℕ → List (World → ℕ × World)
  wifi_calls ssid password =
      esp.esp_netif_init
      ∷ esp.event_loop_create_default
      ∷ esp.create_default_wifi_sta
      ∷ esp.wifi_init
      ∷ esp.wifi_set_mode
      ∷ esp.wifi_set_config (strncpy ssid (esp.ssid_size - 1))
          (strncpy password (esp.password_size - 1))
      ∷ esp.wifi_start
      ∷ esp.wifi_connect
      ∷ []

  -- Whether the flash is to be erased.
  abbrev is_stale : ℕ → Bool
  is_stale err = (err == esp.no_free_pages) || (err == esp.new_version_found)

  -- All checked calls of `WifiInit` in `w`, and where they start: if the first call for the flash
  -- finds it stale, that answer is not checked, and the flash is erased and set up once more.
  abbrev pub checked_calls : List ℕ → List ℕ → World → List (World → ℕ × World) × World
  checked_calls ssid password w =
      if is_stale (esp.nvs_flash_init w).0
      then (
        esp.nvs_flash_erase ∷ esp.nvs_flash_init ∷ wifi_calls ssid password,
        (esp.nvs_flash_init w).1,
      )
      else (esp.nvs_flash_init ∷ wifi_calls ssid password, w)

  wifi_init-checked :
      (ssid password : List ℕ) (w : World)
      → wifi_init esp ssid password w
        ≡ checked (checked_calls ssid password w).0 (running (checked_calls ssid password w).1)
  unfolding wifi_init init_nvs error_check
  wifi_init-checked ssid password w = elim (Bool-cases (is_stale (esp.nvs_flash_init w).0)) [
    | inl stale ↦ rw stale refl
    | inr fresh ↦ rw fresh refl
  ]

  -- The four tasks, each with its stack size and its priority.
  abbrev pub all_tasks : List (Task × ℕ × ℕ)
  all_tasks =
      (audio_capture_task, 4096, 10)
      ∷ (kws_task, 8192, 8)
      ∷ (streaming_task, 6144, 5)
      ∷ (metrics_task, 3072, 2)
      ∷ []

  -- The calls of `xTaskCreate` in turn, from `w` to `v`; those that succeed create the tasks `ts`.
  abbrev pub Creates : List (Task × ℕ × ℕ) → World → World → List Task → Type 0
  Creates [] w v ts = (w ≡ v) × (ts ≡ [])
  Creates ((t, stack_size, priority) ∷ rs) w v ts =
      let (done, w1) = esp.task_create t stack_size priority w in
      ((done ≡ true) × ((us : List Task) × (ts ≡ t ∷ us) × Creates rs w1 v us))
      ⊎ ((done ≡ false) × Creates rs w1 v ts)

  abbrev create_all : List (Task × ℕ × ℕ) → World × List Task → World × List Task
  create_all [] s = s
  create_all ((t, stack_size, priority) ∷ rs) s = create_all rs (create esp t stack_size priority s)

  create_all-Creates :
      (rs : List (Task × ℕ × ℕ)) (w : World) (ts : List Task)
      → (v : World) × (us : List Task) × (create_all rs (w, ts) ≡ (v, ts ++ us)) × Creates rs w v us
  create_all-Creates [] w ts = (w, [], ap (λ us. (w, us)) (sym (append-nil ts)), (refl, refl))
  create_all-Creates ((t, stack_size, priority) ∷ rs) w ts =
      let w1 : World = (esp.task_create t stack_size priority w).1 in
      elim (Bool-cases (esp.task_create t stack_size priority w).0) [
        | inl done ↦
            let (v, us, e, more) = create_all-Creates rs w1 (ts ++ (t ∷ [])) in
            (
              v,
              t ∷ us,
              rw done (e ∙ ap (λ l. (v, l)) (append_assoc ts (t ∷ []) us)),
              inl (done, (us, refl, more)),
            )
        | inr refused ↦
            let (v, us, e, more) = create_all-Creates rs w1 ts in
            (v, us, rw refused e, inr (refused, more))
      ]

  -- `app_main` with any answers of ESP-IDF and FreeRTOS: without memory for the queue it returns,
  -- has called nothing else and there is no task. Otherwise it makes the calls of `WifiInit` in
  -- turn, after one repair of a stale flash. `ESP_ERROR_CHECK` passes 0 only, and line 71 gives it
  -- a pointer, of which it reads the address: at the first answer that is not 0, a pointer that is
  -- not null included, it restarts the chip, makes no further call, and there is no task. If all
  -- are 0, it calls `xTaskCreate` for each of the four tasks in turn, whatever the calls before
  -- have answered, and there are those tasks whose call has succeeded.
  pub app_main-Runs :
      (w : World)
      → let (made, w1) = esp.queue_create 2 w in
        let (calls, w2) = checked_calls wifi_ssid wifi_password w1 in
        ((made ≡ false) × (app_main esp w ≡ (running w1, [])))
        ⊎ ((made ≡ true)
            × (((x v : World) × (ts : List Task) × Runs calls w2 x
                  × Creates all_tasks x v ts
                  × (app_main esp w ≡ (running v, ts)))
                ⊎ ((v : World) × Stops calls w2 v × (app_main esp w ≡ (restarted v, [])))))
  unfolding app_main
  app_main-Runs w =
      let made : Bool = (esp.queue_create 2 w).0 in
      let w1 : World = (esp.queue_create 2 w).1 in
      elim (Bool-cases made) [
        | inr failed ↦ inl (failed, rw failed refl)
        | inl ready ↦
            let plain = wifi_init-checked wifi_ssid wifi_password w1 in
            elim (checked_lem (checked_calls wifi_ssid wifi_password w1).0
              (checked_calls wifi_ssid wifi_password w1).1) [
                | inl (x, e, runs) ↦
                    let (v, ts, made_all, tasks) = create_all-Creates all_tasks x [] in
                    inr (
                      ready,
                      inl (
                        x,
                        v,
                        ts,
                        runs,
                        tasks,
                        rw (ready, plain, e)
                            (ap (λ (r : World × List Task). (running r.0, r.1)) made_all),
                      ),
                    )
                | inr (v, e, stops) ↦ inr (ready, inr (v, stops, rw (ready, plain, e) refl))
              ]
      ]
