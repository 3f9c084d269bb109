-- ===== src/App/Setup.antt =====
-- main/app_main.cpp, `WifiInit` and `app_main`, over an interface of ESP-IDF's and FreeRTOS's calls.
-- `ESP_ERROR_CHECK` restarts the chip on any value but 0; the pointer that line 71 gives to it, where
-- a compiler would refuse it, is taken by its address.
use vaani_edge.Config.{wifi_ssid, wifi_password}
use vaani_edge.Base.{ℕ, ◌-◌, ◌==◌, Bool, ◌||◌, List, [], ◌∷◌, ◌++◌, if◌then◌else◌}

-- The tasks of `app_main`.
pub data Task : Type 0 where
  audio_capture_task kws_task streaming_task metrics_task : Task

-- The two sizes are those of the fields of `wifi_config.sta`. A call changes the world and answers
-- with an `esp_err_t`, 0 for `ESP_OK`. `esp_netif_create_default_wifi_sta` answers with a pointer,
-- here its address, 0 for null. `xTaskCreate` takes the stack size and the priority, and answers
-- whether there was memory for the task.
pub record Esp : Type 1 where
  pub World : Type 0
  pub no_free_pages : ℕ
  pub new_version_found : ℕ
  pub ssid_size : ℕ
  pub password_size : ℕ
  pub nvs_flash_init : World → ℕ × World
  pub nvs_flash_erase : World → ℕ × World
  pub esp_netif_init : World → ℕ × World
  pub event_loop_create_default : World → ℕ × World
  pub create_default_wifi_sta : World → ℕ × World
  pub wifi_init : World → ℕ × World
  pub wifi_set_mode : World → ℕ × World
  pub wifi_set_config : List ℕ → List ℕ → World → ℕ × World
  pub wifi_start : World → ℕ × World
  pub wifi_connect : World → ℕ × World
  pub queue_create : ℕ → World → Bool × World
  pub task_create : Task → ℕ → ℕ → World → Bool × World

-- What is left of a chip that may have restarted.
pub data Outcome (W : Type 0) : Type 0 where
  running : W → Outcome W
  restarted : W → Outcome W

unfoldable pub error_check : {W : Type 0} → (W → ℕ × W) → Outcome W → Outcome W
error_check call (restarted w) = restarted w
error_check call (running w) = let (err, v) = call w in if err == 0 then running v else restarted v

-- strncpy of at most `n` bytes of a string into a field of zeros; the bytes behind stay 0.
unfoldable pub strncpy : List ℕ → ℕ → List ℕ
strncpy [] n = []
strncpy (c ∷ cs) n = if n == 0 then [] else c ∷ strncpy cs (n - 1)

module _ (esp : Esp) where
  open esp use {World}

  unfoldable pub init_nvs : World → Outcome World
  unfolding error_check
  init_nvs w =
      let (err, v) = esp.nvs_flash_init w in
      if (err == esp.no_free_pages) || (err == esp.new_version_found)
      then error_check esp.nvs_flash_init (error_check esp.nvs_flash_erase (running v))
      else if err == 0
      then running v
      else restarted v

  unfoldable pub wifi_init : List ℕ → List ℕ → World → Outcome World
  unfolding init_nvs error_check
  wifi_init ssid password w = error_check esp.wifi_connect (
      error_check esp.wifi_start (
        error_check
          (esp.wifi_set_config (strncpy ssid (esp.ssid_size - 1))
            (strncpy password (esp.password_size - 1)))
          (error_check esp.wifi_set_mode (
            error_check esp.wifi_init (
              error_check esp.create_default_wifi_sta (
                error_check esp.event_loop_create_default
                  (error_check esp.esp_netif_init (init_nvs w))))))))

  -- A call of `xTaskCreate`, whose answer is not looked at, in a world in which the tasks `ts` have
  -- been created.
  abbrev pub create : Task → ℕ → ℕ → World × List Task → World × List Task
  create task stack_size priority (w, ts) =
      let (done, v) = esp.task_create task stack_size priority w in
      (v, if done then ts ++ (task ∷ []) else ts)

  -- The tasks that there are afterwards.
  abbrev pub created : Outcome World → Outcome World × List Task
  created (restarted w) = (restarted w, [])
  created (running w) =
      let (v, ts) = create metrics_task 3072 2 (
        create streaming_task 6144 5
          (create kws_task 8192 8 (create audio_capture_task 4096 10 (w, [])))) in
      (running v, ts)

  unfoldable pub app_main : World → Outcome World × List Task
  unfolding wifi_init
  app_main w =
      let (created_queue, v) = esp.queue_create 2 w in
      if created_queue then created (wifi_init wifi_ssid wifi_password v) else (running v, [])
