-- ===== src/App/StartedTests.antt =====
-- The start of the program on a chip whose flash is stale, whose calls are logged by number, and
-- which has memory for three of the tasks.
use vaani_edge.Base.{
  ℕ, ◌≡◌, refl, ◌⊎◌, true, false, List, [], ◌∷◌, ◌++◌, length, ltb, ◌&&◌, if◌then◌else◌,
}
use vaani_edge.Config.{wifi_ssid, wifi_password}
use vaani_edge.App.Setup.{
  Esp, Task, audio_capture_task, streaming_task, metrics_task, running, restarted, init_nvs,
  wifi_init, error_check, strncpy, app_main,
}
use vaani_edge.App.Started.{Creates, Runs, Stops, checked_calls, all_tasks, app_main-Runs}

abbrev logged : ℕ → List ℕ → ℕ × List ℕ
logged k log = (0, log ++ (k ∷ []))

-- The first call for the flash answers 1, which asks for an erase.
abbrev chip : Esp
chip = record {
  World = List ℕ;
  no_free_pages = 1;
  new_version_found = 2;
  ssid_size = 4;
  password_size = 4;
  nvs_flash_init = λ log. (if ltb (length log) 2 then 1 else 0, log ++ (1 ∷ []));
  nvs_flash_erase = logged 2;
  esp_netif_init = logged 3;
  event_loop_create_default = logged 4;
  create_default_wifi_sta = logged 5;
  wifi_init = logged 6;
  wifi_set_mode = logged 7;
  wifi_set_config = λ ssid password log. (0, log ++ (ssid ++ password));
  wifi_start = logged 8;
  wifi_connect = logged 9;
  queue_create = λ k log. (true, log ++ (0 ∷ []));
  task_create = λ t stack_size priority log.
      (ltb 3000 stack_size && ltb stack_size 8000, log ++ (priority ∷ []));
}

app_main-chip : app_main chip [] ≡ (
  running (
      0 ∷ 1 ∷ 2 ∷ 1 ∷ 3 ∷ 4 ∷ 5 ∷ 6 ∷ 7 ∷ 82 ∷ 69 ∷ 80 ∷ 82 ∷ 69 ∷ 80 ∷ 8 ∷ 9 ∷ 10 ∷ 8 ∷ 5 ∷ 2
      ∷ []),
  audio_capture_task ∷ streaming_task ∷ metrics_task ∷ [],
)
unfolding app_main wifi_init init_nvs error_check strncpy
app_main-chip = refl

app_main-Runs_example :
    let (calls, w2) = checked_calls chip wifi_ssid wifi_password (0 ∷ []) in
    ((true ≡ false) × (app_main chip [] ≡ (running (0 ∷ []), [])))
    ⊎ ((true ≡ true)
        × (((x v : List ℕ) × (ts : List Task) × Runs calls w2 x
              × Creates chip (all_tasks chip) x v ts
              × (app_main chip [] ≡ (running v, ts)))
            ⊎ ((v : List ℕ) × Stops calls w2 v × (app_main chip [] ≡ (restarted v, [])))))
app_main-Runs_example = app_main-Runs chip []
