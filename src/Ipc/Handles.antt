-- ===== src/Ipc/Handles.antt =====
-- Which handles the calls under `start_process` of src/c/ipc.c open.
use aviutl_psdtoolkit.Base.{
  map_error, finally, own, ℕ, zero, suc, ◌+◌, ◌-◌, Bool, true, false, [], ◌∷◌, ◌==◌, if◌then◌else◌,
  Option, none, some, length, Chars, M, ◌>>=◌, or_raise, Error, unexpected, Result, ok, err, Wstr,
  Ovstr, Ends, ◌≡◌, refl, ap, ◌∙◌,
}
use aviutl_psdtoolkit.Ptklayer.Parse.{behind}
use aviutl_psdtoolkit.Ipc.State.{World, Win32, run, ipc_of}
use aviutl_psdtoolkit.Ipc.Process.{process_error, Handles, launch}
use aviutl_psdtoolkit.Ipc.Environment.{
  skips, copy_environment, append_variable, environment_with, use_environment,
  build_environment_strings, program_path, directory_of, get_working_directory,
}

-- The call leaves as many handles open as there were, however it ends.
pub record Keeps {O A : Type 0} (opened : O → ℕ → ℕ) (m : M (World O) A) : Type 0 where
  pub keeps : (w : World O) (h : ℕ) → opened (m w).1.os h ≡ opened w.os h

-- What is documented of the calls: how many handles of a number are open after them.
pub record HandleLaws {O : Type 0} (lib : Ovstr (World O)) (win : Win32 O) (opened : O → ℕ → ℕ)
    : Type 0 where
  pub create_pipe_lem :
      (w : World O)
      → Ends
          (λ p w'. (h : ℕ) → opened w'.os h ≡ opened w.os h + own (some p.0) h + own (some p.1) h)
          (λ e w'. (h : ℕ) → opened w'.os h ≡ opened w.os h)
          (win.create_pipe w)
  pub create_process_lem :
      (env cmd dir : Chars) (i o e : ℕ) (w : World O)
      → Ends
          (λ p w'. (h : ℕ) → opened w'.os h ≡ opened w.os h + own (some p.0) h + own (some p.1) h)
          (λ e w'. (h : ℕ) → opened w'.os h ≡ opened w.os h)
          (win.create_process env cmd dir i o e w)
  pub close_handle_lem :
      (x : ℕ) (w : World O)
      → ((h : ℕ) → opened (win.close_handle x w).os h ≡ opened w.os h - own (some x) h)
        × ((win.close_handle x w).ipc ≡ w.ipc)
  pub thrd_create_lem :
      Keeps opened win.thrd_create
      × ((w : World O)
          → ((win.thrd_create w).1.ipc.process ≡ w.ipc.process)
            × ((win.thrd_create w).1.ipc.pipe_in_w ≡ w.ipc.pipe_in_w)
            × ((win.thrd_create w).1.ipc.pipe_out_r ≡ w.ipc.pipe_out_r))
  pub set_handle_information_lem : (x : ℕ) → Keeps opened (win.set_handle_information x)
  pub get_environment_strings_lem : Keeps opened win.get_environment_strings
  pub free_environment_strings_lem : Keeps opened (run win.free_environment_strings)
  pub full_path_name_length_lem : (s : Chars) → Keeps opened (win.full_path_name_length s)
  pub full_path_name_lem : (s : Chars) → Keeps opened (win.full_path_name s)
  pub sgrow_lem : (n : ℕ) → Keeps opened (lib.sgrow n)
  pub scpy_lem : (s : Chars) → Keeps opened (lib.scpy s)
  pub sncpy_lem : (s : Chars) (n : ℕ) → Keeps opened (lib.sncpy s n)

module _ {O : Type 0} (opened : O → ℕ → ℕ) where
  then_Keeps :
      {A B : Type 0} (f : A → M (World O) B) (r : Result A × World O)
      → ((a : A) → Keeps opened (f a))
      → (h : ℕ) → opened (((λ (v : World O). r) >>= f) r.1).1.os h ≡ opened r.1.os h
  unfolding ◌>>=◌
  then_Keeps f (ok a, w) k h = (k a).keeps w h
  then_Keeps f (err e, w) k h = refl

  >>=-Keeps :
      {A B : Type 0} {m : M (World O) A} {f : A → M (World O) B}
      → Keeps opened m
      → ((a : A) → Keeps opened (f a))
      → Keeps opened (m >>= f)
  unfolding ◌>>=◌
  >>=-Keeps {m} {f} k l = record { keeps = λ w h. then_Keeps f (m w) l h ∙ k.keeps w h }

  if-Keeps :
      {A : Type 0} (b : Bool) {x y : M (World O) A}
      → Keeps opened x
      → Keeps opened y
      → Keeps opened (if b then x else y)
  if-Keeps true h k = h
  if-Keeps false h k = k

  nothing : {A : Type 0} {r : World O → Result A} → Keeps opened (λ (w : World O). (r w, w))
  nothing = record { keeps = λ w h. refl }

  or_raise-Keeps :
      {A : Type 0} (o : Option A) (e : Error) → Keeps opened (or_raise {W = World O} o e)
  or_raise-Keeps none e = nothing
  or_raise-Keeps (some a) e = nothing

module _ {O : Type 0} (lib : Ovstr (World O)) (win : Win32 O) (opened : O → ℕ → ℕ)
    (laws : HandleLaws lib win opened) where
  copy_environment-Keeps :
      (key : Option Chars) (fuel : ℕ) (src tmp : Chars)
      → Keeps opened (copy_environment lib win key fuel src tmp)
  unfolding copy_environment
  copy_environment-Keeps key fuel [] tmp = nothing opened
  copy_environment-Keeps key zero (c ∷ cs) tmp =
      if-Keeps opened (c == 0) (nothing opened) (nothing opened)
  copy_environment-Keeps key (suc fuel) (c ∷ cs) tmp = if-Keeps opened (c == 0) (nothing opened) (
      if-Keeps opened (skips key (c ∷ cs)) (copy_environment-Keeps key fuel (behind (c ∷ cs)) tmp) (
        >>=-Keeps opened (laws.sgrow_lem _)
          λ _. copy_environment-Keeps key fuel (behind (c ∷ cs)) _))

  append_variable-Keeps :
      (key value : Option Chars) (tmp : Chars)
      → Keeps opened (append_variable lib win key value tmp)
  unfolding append_variable
  append_variable-Keeps none value tmp = nothing opened
  append_variable-Keeps (some []) value tmp = nothing opened
  append_variable-Keeps (some (k ∷ ks)) value tmp =
      >>=-Keeps opened (laws.sgrow_lem _) λ _. nothing opened

  use_environment-Keeps :
      (env key value : Option Chars) → Keeps opened (use_environment lib win env key value)
  unfolding use_environment environment_with finally
  use_environment-Keeps none key value = nothing opened
  use_environment-Keeps (some env) key value = record {
    keeps = λ w h.
        (laws.free_environment_strings_lem).keeps _ h
        ∙ (>>=-Keeps opened (copy_environment-Keeps key (length env) env []) λ tmp.
              >>=-Keeps opened (append_variable-Keeps key value tmp) λ tmp2.
                >>=-Keeps opened (laws.sgrow_lem _)
                  λ _. >>=-Keeps opened (laws.sgrow_lem _) λ _. nothing opened).keeps
            w h;
  }

  program_path-Keeps : (s : Chars) → Keeps opened (program_path lib win s)
  unfolding program_path
  program_path-Keeps [] = nothing opened
  program_path-Keeps (c ∷ cs) =
      if-Keeps opened (c == b'"') (laws.sncpy_lem _ _) (laws.sncpy_lem _ _)

  directory_of-Keeps : (p : Chars × Option ℕ) → Keeps opened (directory_of lib win p)
  unfolding directory_of
  directory_of-Keeps (path, none) = nothing opened
  directory_of-Keeps (path, some fn) = laws.scpy_lem _

  get_working_directory-Keeps :
      (s : Wstr) (d : Option Wstr) → Keeps opened (get_working_directory lib win s d)
  unfolding get_working_directory
  get_working_directory-Keeps none d = nothing opened
  get_working_directory-Keeps (some []) d = nothing opened
  get_working_directory-Keeps (some (c ∷ cs)) none = nothing opened
  get_working_directory-Keeps (some (c ∷ cs)) (some d) =
      >>=-Keeps opened (program_path-Keeps (c ∷ cs)) λ tmp.
        >>=-Keeps opened (laws.full_path_name_length_lem tmp) λ n.
          >>=-Keeps opened (laws.sgrow_lem n)
            λ _. >>=-Keeps opened (laws.full_path_name_lem tmp) λ p. directory_of-Keeps p

  abbrev pub Opens : World O → Result (ℕ × ℕ) × World O → Type 0
  Opens w =
      Ends (λ p w'. (h : ℕ) → opened w'.os h ≡ opened w.os h + own (some p.0) h + own (some p.1) h)
        (λ e w'. (h : ℕ) → opened w'.os h ≡ opened w.os h)

  pub record OpensTwo (m : M (World O) (ℕ × ℕ)) : Type 0 where
    pub opens : (w : World O) → Opens w (m w)

  after_keeping :
      (w w1 : World O) (r : Result (ℕ × ℕ) × World O)
      → ((h : ℕ) → opened w1.os h ≡ opened w.os h)
      → Opens w1 r
      → Opens w r
  after_keeping w w1 (ok p, w2) k o =
      λ h. o h ∙ ap (λ (n : ℕ). n + own (some p.0) h + own (some p.1) h) (k h)
  after_keeping w w1 (err e, w2) k o = λ h. o h ∙ k h

  then_Opens :
      {A : Type 0} (f : A → M (World O) (ℕ × ℕ)) (w : World O) (r : Result A × World O)
      → ((h : ℕ) → opened r.1.os h ≡ opened w.os h)
      → ((a : A) → OpensTwo (f a))
      → Opens w (((λ (v : World O). r) >>= f) w)
  unfolding ◌>>=◌
  then_Opens f w (ok a, w1) k l = after_keeping w w1 (f a w1) k ((l a).opens w1)
  then_Opens f w (err e, w1) k l = k

  >>=-OpensTwo :
      {A : Type 0} {m : M (World O) A} {f : A → M (World O) (ℕ × ℕ)}
      → Keeps opened m
      → ((a : A) → OpensTwo (f a))
      → OpensTwo (m >>= f)
  unfolding ◌>>=◌
  >>=-OpensTwo {m} {f} k l = record { opens = λ w. then_Opens f w (m w) (k.keeps w) l }

  map_error-OpensTwo :
      (g : Error → Error) (m : M (World O) (ℕ × ℕ))
      → ((w : World O) → Opens w (m w))
      → OpensTwo (map_error g m)
  unfolding map_error finally
  map_error-OpensTwo g m k = record { opens = λ w. mapped w (m w) (k w) }
    where
      mapped :
          (w : World O) (r : Result (ℕ × ℕ) × World O)
          → Opens w r
          → Opens w (elim r.0 [ ok a ↦ (ok a, r.1) | err e ↦ (err (g e), r.1) ])
      mapped w (ok p, w2) o = o
      mapped w (err e, w2) o = o

  pub launch-OpensTwo : (hs : Handles) → OpensTwo (launch lib win hs)
  unfolding launch build_environment_strings
  launch-OpensTwo hs =
      >>=-OpensTwo
        (>>=-Keeps opened laws.get_environment_strings_lem
          λ env. use_environment-Keeps env (some []) (some []))
        λ envvar. >>=-OpensTwo {m = ipc_of} (nothing opened) λ ipc.
          >>=-OpensTwo (laws.scpy_lem ipc.cmdline) λ path.
            >>=-OpensTwo (get_working_directory-Keeps (some path) (some none)) λ dir.
              >>=-OpensTwo (or_raise-Keeps opened hs.in_r unexpected) λ i.
                >>=-OpensTwo (or_raise-Keeps opened hs.out_w unexpected) λ o.
                  >>=-OpensTwo (or_raise-Keeps opened hs.err_w unexpected) λ e.
                    map_error-OpensTwo process_error (win.create_process envvar path dir i o e)
                      (laws.create_process_lem envvar path dir i o e)
