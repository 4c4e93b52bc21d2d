-- ===== src/Types.antt =====
-- sgcl/priv/data_page.h and sgcl/configuration.h: the constants of the page layout and of the type
-- tables. Pointers are 64 bits wide.
use sgcl.Base.{ℕ, ◌-◌, ◌*◌}

-- sizeof(uintptr_t), which is also sizeof(Pointer)
abbrev pub word_size : ℕ
word_size = 8

abbrev pub page_size : ℕ
page_size = 4096

abbrev pub page_data_size : ℕ
page_data_size = page_size - word_size

-- MaxTypeNumber
abbrev pub max_type_number : ℕ
max_type_number = 4096

-- MaxStackSize
abbrev pub max_stack_size : ℕ
max_stack_size = 1024 * 1024

-- DeletionDelayMsec
abbrev pub deletion_delay : ℕ
deletion_delay = 100

-- SGCL_TRIGER_PERCENTAGE
abbrev pub trigger_percentage : ℕ
trigger_percentage = 25

-- SGCL_MAX_SLEEP_TIME_SEC
abbrev pub max_sleep_time : ℕ
max_sleep_time = 30

-- StackDetectionOffset
abbrev pub stack_detection_offset : ℕ
stack_detection_offset = 1024
