-- ===== src/Assist/LifetimeTests.antt =====
-- A plug-in all of whose parts start, for src/c/assist.c.
use aviutl_psdtoolkit.Base.{
  ℕ, ◌+◌, ◌-◌, ◌≤◌, leb, codes, take, [], true, false, none, some, own, concat, pure, ok, Ovstr,
  ◌++◌, c_str, ◌≡◌, refl,
}
use aviutl_psdtoolkit.Assist.Lifetime.{Globals, Parts, filter_init, filter_exit}
use aviutl_psdtoolkit.Assist.Running.{Up, PartLaws, Running}
use aviutl_psdtoolkit.Assist.Stopped.{filter_init-Ended}

abbrev all_start : Parts Up
all_start = record {
  is_amd64 = λ w. (true, w);
  aviutl_set_pointers = λ w. w;
  aviutl_init = λ w. (ok tt, record w { aviutl = true });
  aviutl_initalized = λ w. w.aviutl;
  aviutl_exit = λ w. (ok tt, record w { aviutl = false });
  aviutl_add_menu_item = λ s i k f. pure tt;
  aviutl_get_project_path = pure [];
  cache_init = λ w. (ok tt, record w { cache = true });
  cache_exit = λ w. record w { cache = false };
  speak_init = λ w. (ok tt, record w { speak = true });
  speak_exit = λ w. record w { speak = false };
  ipc_init = λ s w. (ok tt, record w { ipc = true });
  ipc_exit = λ w. record w { ipc = false };
  ipc_clear_files = pure tt;
  ipc_update_current_project_path = λ s. pure tt;
  ipc_show_gui = pure 3;
  ipc_serialize = pure [];
  ipc_deserialize = λ s. pure tt;
  show_setting = pure tt;
  get_module_file_name = pure (codes "C:\\a.auf");
  extract_file_name = λ s. pure 3;
  load_library = λ s w. (ok 7, record w { libs = λ x. w.libs x + own (some 7) x });
  get_proc_address = λ m. pure 9;
  call_init = λ fn w. w;
  free_library = λ m w. record w { libs = λ x. w.libs x - own (some m) x };
  set_foreground_window = λ n w. w;
  post_update_current_project_path = λ w. w;
  to_utf8 = λ s. pure s;
  error_to_string = λ e. pure [];
  message_box = λ s w. w;
  ereport = λ e w. w;
}

abbrev texts : Ovstr Up
texts = record {
  sgrow = λ n. pure tt;
  apush = pure tt;
  scpy = λ s. pure (c_str s);
  sncpy = λ s n. pure (take n s);
  scpym = λ ss. pure (concat ss);
  scatm = λ s ss. pure (s ++ concat ss);
  sstr = λ s t. pure none;
  sreplace_all = λ s c new. pure s;
}

abbrev at_rest : Globals Up
at_rest = record {
  bridge = none;
  ipc = false;
  speak = false;
  ptk_window = 0;
  current_project_path = none;
  current_frame = 0;
  current_frame_n = 0;
  current_render_index = 0;
  world = record { aviutl = false; cache = false; speak = false; ipc = false; libs = λ x. 0 };
}

abbrev own_view : Up → Up
own_view w = w

all_start-laws : PartLaws texts all_start own_view
all_start-laws = record {
  is_amd64_lem = λ w. refl;
  aviutl_set_pointers_lem = λ w. refl;
  aviutl_init_lem = λ w. refl;
  aviutl_initalized_lem = λ w. refl;
  aviutl_exit_lem = λ w e. refl;
  aviutl_add_menu_item_lem = λ s i k f. record { still = λ w. refl };
  cache_init_lem = λ w. refl;
  cache_exit_lem = λ w e. refl;
  speak_init_lem = λ w. refl;
  speak_exit_lem = λ w e. refl;
  ipc_init_lem = λ s w. refl;
  ipc_exit_lem = λ w e. refl;
  get_module_file_name_lem = record { still = λ w. refl };
  extract_file_name_lem = λ s. record { still = λ w. refl };
  load_library_lem = λ s w. refl;
  get_proc_address_lem = λ m. record { still = λ w. refl };
  call_init_lem = λ fn w. refl;
  free_library_lem = λ m w. refl;
  error_to_string_lem = λ e. record { still = λ w. refl };
  message_box_lem = λ s w. refl;
  ereport_lem = λ e w. refl;
  scpy_lem = λ s. record { still = λ w. refl };
  scpym_lem = λ ss. record { still = λ w. refl };
  scatm_lem = λ s ss. record { still = λ w. refl };
}

at_rest-Running : Running own_view (λ x. 0) 0 at_rest
at_rest-Running = record {
  aviutl_is = refl;
  cache_is = refl;
  speak_is = refl;
  ipc_is = refl;
  libs_are = λ x. refl;
  g_speak_is = refl;
  g_ipc_is = refl;
  bridge_is = λ e. refl;
  loaded_is = λ t. absurd (cc);
}

filter_init-Ended_example :
    let r = filter_init texts all_start at_rest in
    (n : ℕ) × (n ≤ 5)
    × (r.0 ≡ leb 5 n)
    × Running own_view (λ x. 0) n r.1
    × (2 ≤ n → Running own_view (λ x. 0) 0 (filter_exit texts all_start r.1))
filter_init-Ended_example =
    filter_init-Ended texts all_start own_view all_start-laws (λ x. 0) at_rest at_rest-Running
