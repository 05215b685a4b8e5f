-- ===== src/SedMtime/Tests.antt =====
-- Runs of check-sed-mtime/check_sed_mtime.c on small inputs, and its theorems at them.
use overthinkin.Base.{◌/◌, ◌==◌, if◌then◌else◌, [], some, length, Bytes, ℤ, pos, Os, ◌≡◌, refl}
use overthinkin.SedMtime.Run.{
  Call, Answer, run_sed_command, create_temp_dir, get_file_mtime, show_content, observe,
  compare_times, run_rounds, clean_up, start_rounds, run_test,
}
use overthinkin.SedMtime.Counts.{CountsIf, run_test-CountsIf}

-- A system where each call goes well, and where the time moves on with every eighth call.
abbrev clock : Os Call Answer
clock t c = record { ret = pos 3; mtime = record { sec = 1; nsec = length t / 8 }; wstatus = 0 }

two_rounds :
    (run_test 2 clock []).0
    ≡ some (record { total_iterations = 2; failed_iterations = 0; same_mtime_count = 1 })
unfolding run_test start_rounds run_rounds clean_up observe compare_times show_content
    get_file_mtime create_temp_dir run_sed_command
two_rounds = refl

run_test-CountsIf_example : CountsIf 2 2 (run_test 2 clock [])
run_test-CountsIf_example = run_test-CountsIf 2 clock

-- What strtol gives for the two numbers of the tests.
abbrev strtol : Bytes → ℤ × Bytes
strtol arg = (if length arg == 1 then pos 2 else pos 3000000000, [])
